-- ===== src/Tests/Methods.antt =====
-- Listing and reading through the gateway, with a manager that is a list of tools.
use lessen_mcp_gateway.Prelude.{
  ◌+◌, ◌-◌, ◌≡◌, refl, ap, ◌∙◌, subst, Bytes, codes, ◌==◌, true, false, not, none, List, [], ◌∷◌,
  ◌++◌, map, take, drop, length, all, nat_eq, arith,
}
use lessen_mcp_gateway.Prelude.Int.{ℤ, pos, clip}
use lessen_mcp_gateway.Errors.{ok, err, panicked}
use lessen_mcp_gateway.Model.{Tool, Resource}
use lessen_mcp_gateway.Gateway.Uris.{Urls, scheme_name}
use lessen_mcp_gateway.Gateway.Uris.Back.{UrlLaws}
use lessen_mcp_gateway.Gateway.Methods.{Backing, Texts, resource_entry}
use lessen_mcp_gateway.Gateway.Dispatch.{read_resource, rewrite_resource_result_uris}
use lessen_mcp_gateway.Gateway.Dispatch.Routes.{read_resource-listed}
use lessen_mcp_gateway.Tests.Values.{read_file}

abbrev backing : Backing (List Tool)
backing = record {
  list_tools_page = λ m ctx id limit offset. ok (take 200 (drop (clip offset) m), length m);
  list_resources = λ m ctx id limit offset. err panicked;
  list_resource_templates = λ m ctx id limit offset. err panicked;
  list_prompts = λ m ctx id limit offset. err panicked;
  call_tool = λ m ctx name arguments. (m, err panicked);
  call_server = λ m ctx id method params. (m, ok (codes "{}"));
}

abbrev number_in : Bytes → ℤ
number_in [] = pos 0
number_in (n ∷ text) = pos n

-- A number is written as one character.
abbrev texts : Texts
texts = record {
  cursor_of = λ raw. raw;
  protocol_of = λ raw. [];
  call_of = λ raw. err panicked;
  uri_of = λ raw. ok raw;
  prompt_of = λ raw. err panicked;
  atoi = number_in;
  itoa = λ n. clip n ∷ [];
  encode_string = λ text. text;
  decode_optional = λ raw. raw;
  encode_tools = λ page. ok [];
  encode_entries = λ key page. ok [];
  encode_discover = λ versions. ok [];
  encode_initialize = λ protocol name version. ok [];
  decode_contents = λ raw. ok none;
  encode_contents = λ raw contents. ok raw;
}

-- The characters of an encoded text are 100 and more; every URI here is one of server fs.
abbrev urls : Urls
urls = record {
  parse = λ value. ok (record {
    scheme = scheme_name;
    host = codes "fs";
    path = drop 16 value;
    escaped_path = drop 16 value;
    query = [];
  });
  path_escape = λ text. text;
  query_escape = λ text. text;
  encode_base64 = map (λ c. c + 100);
  decode_base64 = λ text. ok (map (λ c. c - 100) text);
}

abbrev IsFiles : Bytes → Type 0
IsFiles name = codes "fs" ≡ name

back_and_forth : (text : Bytes) → map (λ c. c - 100) (map (λ c. c + 100) text) ≡ text
back_and_forth [] = refl
back_and_forth (c ∷ text) =
    ap (λ d. d ∷ map (λ c. c - 100) (map (λ c. c + 100) text)) (omega arith)
    ∙ ap (λ l. c ∷ l) (back_and_forth text)

without_slash : (text : Bytes) → all (λ c. not (nat_eq c b'/')) (map (λ c. c + 100) text) ≡ true
without_slash [] = refl
without_slash (c ∷ text) = ground (arith, without_slash text)

url_laws : UrlLaws urls IsFiles
unfolding ◌==◌
url_laws = record {
  escapes = λ name e. refl;
  not_empty = λ name e. subst (λ (n : Bytes). (n == []) ≡ false) e refl;
  decodes = λ text. ap ok (back_and_forth text);
  no_slash = without_slash;
  parses = λ name text e.
      subst
        (λ (n : Bytes).
          urls.parse (codes "mcp-gateway://" ++ n ++ codes "/" ++ urls.encode_base64 text)
          ≡ ok (record {
            scheme = scheme_name;
            host = n;
            path = b'/' ∷ urls.encode_base64 text;
            escaped_path = b'/' ∷ urls.encode_base64 text;
            query = [];
          }))
        e refl;
}

abbrev tools : List Tool
tools = read_file ∷ record read_file { name = codes "write" } ∷ []

abbrev readme : Resource
readme = record {
  server_id = codes "fs";
  uri = codes "file:///README";
  name = codes "README";
  title = [];
  description = [];
  mime_type = [];
  annotations = [];
  payload = [];
  updated_at = 0;
}

read_resource-listed_example :
    read_resource backing texts urls
      (λ e. [])
      []
      []
      tools
      none
      (resource_entry backing texts urls readme).uri
    ≡ (tools, ok (codes "{}"))
unfolding ◌==◌ rewrite_resource_result_uris
read_resource-listed_example =
    read_resource-listed backing texts urls (λ e. []) [] [] IsFiles url_laws tools none
      (resource_entry backing texts urls readme).uri readme refl refl refl
