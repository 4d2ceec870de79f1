-- ===== src/Tests/Calls.antt =====
-- Calls and a discovery through a manager of one server.
use lessen_mcp_gateway.Prelude.{
  if◌then◌else◌, ℕ, ◌+◌, ◌≤◌, ◌≡◌, inr, refl, Bytes, codes, ◌==◌, false, none, some, List, [], ◌∷◌,
  Map, length, lookup,
}
use lessen_mcp_gateway.Errors.{Error, Context, ok, err, panicked}
use lessen_mcp_gateway.Model.{
  Raw, Resource, ResourceTemplate, Prompt, Server, HealthStatus, TransportType,
}
use lessen_mcp_gateway.Config.{default}
use lessen_mcp_gateway.Mcp.Protocol.{ClientInfo, supports_legacy_protocol}
use lessen_mcp_gateway.Mcp.Meta.{Json}
use lessen_mcp_gateway.Storage.Memory.{
  replace_resources, replace_resource_templates, replace_prompts, MemoryStore, get_server,
  new_memory,
}
use lessen_mcp_gateway.Storage.Memory.Laws.{tool_at}
use lessen_mcp_gateway.Registry.{Registry}
use lessen_mcp_gateway.Registry.Coherent.{Coherent}
use lessen_mcp_gateway.App.Client.{new_backend, close}
use lessen_mcp_gateway.App.Handshake.{ensure_initialized, with_client, remembered}
use lessen_mcp_gateway.App.Handshake.Outcome.{IsSound}
use lessen_mcp_gateway.App.Apply.{Manager}
use lessen_mcp_gateway.App.Status.{mark_error}
use lessen_mcp_gateway.App.Status.Recorded.{mark_error-recorded}
use lessen_mcp_gateway.App.Calls.{Gates, Caller, Moment, call_server, call_backend}
use lessen_mcp_gateway.App.Calls.Places.{Ended, call_server-Ended}
use lessen_mcp_gateway.App.Calls.Sound.{Reported, call_backend-Reported, call_backend-closed}
use lessen_mcp_gateway.App.Discover.{Listing, Encoders, discover}
use lessen_mcp_gateway.App.Discover.Keeps.{OtherWrites, Kept}
use lessen_mcp_gateway.App.Discover.Ends.{IsEnding, IsFinite, discover-ends-Kept}
use lessen_mcp_gateway.Storage.Interface.{Done}
use lessen_mcp_gateway.Tests.Values.{in_memory, in_memory_laws}
use lessen_mcp_gateway.Tests.Registry.{fresh, fresh-Coherent}
use lessen_mcp_gateway.Tests.Sessions.{first_page, second_page, busy, older, pages, no_hash}

-- A client whose state counts its calls, and whose server answers them.
abbrev caller : Caller ℕ
caller = record {
  call = λ ctx method params c. (c + 1, ok (codes "{}"));
  health = λ ctx c. (c + 1, ok tt);
  is_running = λ c. none;
}

abbrev text_of : Error → Bytes
text_of e = codes "failed"

-- A JSON text is the last value that was put in the object.
abbrev first_value : Map Raw → Raw
first_value [] = []
first_value ((key, value) ∷ m) = value

abbrev json : Json
json = record {
  decode_object = λ raw. ok [];
  encode_object = λ m. codes "{}";
  encode_string = λ text. text;
  encode_info = λ info. info.name;
}

abbrev me : ClientInfo
me = record { name = codes "gateway"; version = [] }

abbrev now : Moment
now = record {
  ctx = none;
  after_probe = none;
  gives_up_global = false;
  gives_up_own = false;
  now = 9;
}

abbrev manager : Manager ℕ MemoryStore
manager = record { cfg = default; backends = (codes "fs", busy) ∷ []; registry = fresh }

abbrev one_each : Gates
one_each = record {
  global = record { capacity = 2; held = 1 };
  own = record { capacity = 1; held = 0 };
}

call_server-Ended_example : Ended one_each (
    call_server older caller json me in_memory text_of now
      (λ b. b)
      one_each
      manager
      (codes "fs")
      (codes "tools/list")
      none)
call_server-Ended_example =
    call_server-Ended older caller json me in_memory text_of now (λ b. b) one_each manager
      (codes "fs") (codes "tools/list") none

busy-IsSound : IsSound busy
unfolding new_backend supports_legacy_protocol ◌==◌
busy-IsSound = record { revision = λ h. inr (refl, refl) }

call_backend-Reported_example :
    Reported older caller json me in_memory text_of now manager
      (codes "fs")
      (codes "tools/list")
      none
      (ensure_initialized older none none 9 busy).0
      (ensure_initialized older none none 9 busy).1
      (call_backend older caller json me in_memory text_of now
        (λ b. b)
        manager
        (codes "fs")
        busy
        (codes "tools/list")
        none)
call_backend-Reported_example =
    call_backend-Reported older caller json me in_memory text_of now manager (codes "fs") busy
      (codes "tools/list") none busy-IsSound

busy_ready : (ensure_initialized older none none 9 busy).1 ≡ ok (remembered older none none 9 busy)
unfolding ensure_initialized with_client new_backend
busy_ready = refl

call_backend-closed_example :
    (call_backend older caller json me in_memory text_of now close manager
      (codes "fs")
      busy
      (codes "tools/list")
      none).1
    ≡ err panicked
call_backend-closed_example =
    call_backend-closed older caller json me in_memory text_of now manager (codes "fs") busy
      (codes "tools/list") none (remembered older none none 9 busy) busy_ready

abbrev files : Server
files = record {
  id = codes "fs";
  name = codes "Fs";
  transport = TransportType.stdio;
  status = HealthStatus.healthy;
  status_message = [];
  endpoint = [];
  protocol_version = [];
  server_version = [];
  capabilities = [];
  tool_count = 0;
  resource_count = 0;
  resource_template_count = 0;
  prompt_count = 0;
  last_health_check = 0;
  last_discovered_at = 0;
  connected_since = 0;
  config_hash = [];
}

abbrev with_files : Registry MemoryStore
with_files = record fresh { stored = record new_memory { servers = (codes "fs", files) ∷ [] } }

mark_error-recorded_example :
    (length (codes "failed") ≤ 515)
    × ((other : Bytes)
        → get_server
            (mark_error in_memory text_of 9 with_files
              (codes "fs")
              HealthStatus.degraded
              panicked).stored
            none
            other
          ≡ (if codes "fs" == other
              then ok (record files {
                status = HealthStatus.degraded;
                status_message = codes "failed";
                last_health_check = 9;
              })
              else get_server with_files.stored none other))
unfolding get_server new_memory lookup ◌==◌
mark_error-recorded_example =
    mark_error-recorded (λ raw. none) text_of 9 with_files (codes "fs") HealthStatus.degraded
      panicked files refl refl

-- Parameters with a trace in their metadata, and what is made of them.
abbrev traced : Json
traced = record json {
  decode_object = λ raw. ok (
      if raw == codes "params"
      then (codes "_meta", codes "meta") ∷ (codes "cursor", codes "c") ∷ []
      else (codes "trace", codes "t") ∷ []);
}

abbrev given : Map Raw
given = (codes "_meta", codes "meta") ∷ (codes "cursor", codes "c") ∷ []

abbrev out : Map Raw
out = (codes "_meta", codes "{}") ∷ (codes "cursor", codes "c") ∷ []

tool_at-replace_resources :
    (s : MemoryStore) (ctx : Context) (id i n : Bytes) (items : List Resource)
    → tool_at (replace_resources s ctx id items).0 i n ≡ tool_at s i n
unfolding tool_at replace_resources
tool_at-replace_resources s none id i n items = refl
tool_at-replace_resources s (some e) id i n items = refl

tool_at-replace_templates :
    (s : MemoryStore) (ctx : Context) (id i n : Bytes) (items : List ResourceTemplate)
    → tool_at (replace_resource_templates s ctx id items).0 i n ≡ tool_at s i n
unfolding tool_at replace_resource_templates
tool_at-replace_templates s none id i n items = refl
tool_at-replace_templates s (some e) id i n items = refl

tool_at-replace_prompts :
    (s : MemoryStore) (ctx : Context) (id i n : Bytes) (items : List Prompt)
    → tool_at (replace_prompts s ctx id items).0 i n ≡ tool_at s i n
unfolding tool_at replace_prompts
tool_at-replace_prompts s none id i n items = refl
tool_at-replace_prompts s (some e) id i n items = refl

in_memory_writes : OtherWrites in_memory in_memory_laws
in_memory_writes = record {
  resources = tool_at-replace_resources;
  templates = tool_at-replace_templates;
  prompts = tool_at-replace_prompts;
}

abbrev listing : Listing
listing = record {
  tools = pages;
  resources = λ cursor. err panicked;
  templates = λ cursor. err panicked;
  prompts = λ cursor. err panicked;
}

abbrev encoders : Encoders
encoders = record {
  sha256 = no_hash;
  resource = λ def. [];
  template = λ def. [];
  prompt = λ def. [];
  decode = λ raw. ok (codes "tools" ∷ []);
}

abbrev stocked_manager : Manager ℕ MemoryStore
stocked_manager = record manager { registry = with_files }

with_files-Coherent : Coherent in_memory in_memory_laws with_files
unfolding new_memory tool_at
with_files-Coherent = record {
  valid = fresh-Coherent.valid;
  agrees = λ i n t slash h. fresh-Coherent.agrees i n t slash h;
}

listing-IsFinite : IsFinite 5 listing
listing-IsFinite = record {
  tools = IsEnding.more first_page refl (IsEnding.last second_page refl refl);
  resources = IsEnding.fails panicked refl;
  templates = IsEnding.fails panicked refl;
  prompts = IsEnding.fails panicked refl;
}

discover-ends-Kept_example :
    (after : Manager ℕ MemoryStore) × (done : Done) × (discover older in_memory encoders text_of now
        5 none stocked_manager
        (codes "fs")
        listing
      ≡ some (after, done))
    × Kept in_memory in_memory_laws in_memory_writes after.registry
unfolding new_memory
discover-ends-Kept_example =
    discover-ends-Kept older in_memory encoders text_of now 5 in_memory_laws in_memory_writes none
      stocked_manager (codes "fs") listing refl (with_files-Coherent, tt) listing-IsFinite
