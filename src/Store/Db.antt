-- ===== src/Store/Db.antt =====
-- internal/store/store.go, `inTx` and `matchedRow`, with the tables of internal/store/migrations: the
-- database as lists of rows in the order of insertion, and operations that may fail.
use command_center.Prelude.{
  ℕ, String, Bool, true, false, Option, none, some, List, [], ◌∷◌, map, if◌then◌else◌, nat_eq, ◌==◌,
  Map, string_eq,
}
use command_center.Prelude.Int.{ℤ}
use command_center.Plan.Ids.{TicketUrl, Sha, StepName}
use command_center.Plan.Vocab.{Verb}
use command_center.Plan.Ticket.{AgentChoice}
use command_center.Plan.Observation.{Observation}

-- The payload of a launch intent, a JSON object in the database.
pub record LaunchPayload : Type 0 where
  pub prompt_hash : String
  pub group : String
  pub context : String
  pub choice : AgentChoice
  pub workflow : String

-- The JSON values that the store writes as payloads: none, a text, and the objects of a launch and
-- of an edit.
pub data Payload : Type 0 where
  null : Payload
  text : String → Payload
  launch_object : LaunchPayload → Payload
  edit_object : String → List TicketUrl → Payload

pub record TicketRow : Type 0 where
  pub url : TicketUrl
  pub repo : String
  pub branch : String
  pub blocked_by : List TicketUrl
  pub source : String
  pub title : String
  pub body : String
  pub status : String
  pub feature : String
  pub synced_at : Option ℕ
  pub withdrawn_at : Option ℕ

pub record LaunchRow : Type 0 where
  pub id : ℕ
  pub created_at : ℕ
  pub state : String
  pub context : String
  pub model : Option String
  pub effort : Option String
  pub workflow : String

pub record MemberRow : Type 0 where
  pub launch_id : ℕ
  pub ticket : TicketUrl
  pub prompt_hash : String

-- A cost is its decimal text, and metrics are their JSON text.
pub record RunRow : Type 0 where
  pub id : ℕ
  pub ticket : Option TicketUrl
  pub kind : String
  pub pgid : Option ℕ
  pub proc_started_at : Option ℕ
  pub baseline_sha : Option Sha
  pub prompt_hash : Option String
  pub log_path : Option String
  pub outcome : Option String
  pub exit_code : Option ℤ
  pub ended_at : Option ℕ
  pub session_id : Option String
  pub message : Option String
  pub question : Option String
  pub cost_usd : Option String
  pub last_message : Option String
  pub metrics : Option String
  pub model : Option String
  pub effort : Option String
  pub step : StepName
  pub workflow : String
  pub workflow_hash : String

pub record PushRecord : Type 0 where
  pub id : ℕ
  pub ticket : TicketUrl
  pub pushed_tip : Sha
  pub base_branch : String
  pub base_sha_at_push : Sha
  pub pushed_at : ℕ

pub record EventRow : Type 0 where
  pub id : ℕ
  pub at : ℕ
  pub ticket : Option TicketUrl
  pub kind : String
  pub detail : String

pub record IntentRow : Type 0 where
  pub id : ℕ
  pub at : ℕ
  pub ticket : TicketUrl
  pub verb : Verb
  pub payload : Payload
  pub consumed_at : Option ℕ

-- `project` is the name of the project that the repository is in.
pub record RepoRow : Type 0 where
  pub name : String
  pub remote : String
  pub state : String
  pub refusal_kind : Option String
  pub refusal : Option String
  pub settings_source : Option String
  pub settings_read_at : Option ℕ
  pub tracked_at : ℕ
  pub project : Option String

-- A utilization is the decimal text of a floating-point number, as a weight is.
pub record ReadingRow : Type 0 where
  pub at : ℕ
  pub window : String
  pub utilization : String
  pub resets_at : ℕ

pub record IntervalRow : Type 0 where
  pub window : String
  pub start_at : ℕ
  pub end_at : ℕ
  pub utilization_start : String
  pub utilization_end : String
  pub weight_usd : String

pub record TickError : Type 0 where
  pub at : ℕ
  pub message : String

pub record ImportError : Type 0 where
  pub at : ℕ
  pub feature : String
  pub message : String

-- A field `_seq` is the last number that the identity column of its table gave. The table `meta` is a
-- field for each of its keys.
pub record Db : Type 0 where
  pub launch_seq : ℕ
  pub run_seq : ℕ
  pub push_seq : ℕ
  pub event_seq : ℕ
  pub intent_seq : ℕ
  pub tickets : List TicketRow
  pub launches : List LaunchRow
  pub members : List MemberRow
  pub runs : List RunRow
  pub pushes : List PushRecord
  pub events : List EventRow
  pub intents : List IntentRow
  pub repos : List RepoRow
  pub readings : List ReadingRow
  pub intervals : List IntervalRow
  pub observation : Option Observation
  pub last_error : Option TickError
  pub import_error : Option ImportError
  pub checking_ticks : Map TicketUrl ℕ
  pub last_verdicts : Map TicketUrl String

pub record FeatureConflict : Type 0 where
  pub url : TicketUrl
  pub existing : String
  pub importing : String

pub record FeatureClosure : Type 0 where
  pub feature : String
  pub url : TicketUrl
  pub blocker : TicketUrl
  pub blocker_feature : String

-- What an error is, without the words that each caller wraps around it: `fault` is an error of the
-- database or of the connection, `outside` one of a program or a file that the loop uses.
pub data Error : Type 0 where
  fault : Error
  not_found : Error
  malformed : String → Error
  unique_violation : Error
  feature_conflict : FeatureConflict → Error
  feature_closure : FeatureClosure → Error
  outside : String → Error

pub data Result (A : Type 0) : Type 0 where
  ok : A → Result A
  err : Error → Result A

-- `faults` says which of the coming statements fail; past its end none does.
pub record World : Type 0 where
  pub faults : List Bool
  pub db : Db

-- An action on a state `W` gives a result, and leaves a state whatever the result is.
abbrev pub ActionOn : Type 0 → Type 0 → Type 0
ActionOn W A = W → Result A × W

abbrev pub Action : Type 0 → Type 0
Action A = ActionOn World A

abbrev pub is_err : {A : Type 0} → Result A → Bool
is_err (ok a) = false
is_err (err e) = true

abbrev pub then_on : {W A B : Type 0} → (A → ActionOn W B) → Result A × W → Result B × W
then_on f (ok a, w) = f a w
then_on f (err e, w) = (err e, w)

infixl 5 ◌>>=◌ ◌>>◌
abbrev pub ◌>>=◌ : {W A B : Type 0} → ActionOn W A → (A → ActionOn W B) → ActionOn W B
◌>>=◌ m f w = then_on f (m w)

abbrev pub ◌>>◌ : {W A B : Type 0} → ActionOn W A → ActionOn W B → ActionOn W B
m >> k = m >>= λ _. k

abbrev pub pure : {W A : Type 0} → A → ActionOn W A
pure a w = (ok a, w)

abbrev pub raise : {W A : Type 0} → Error → ActionOn W A
raise e w = (err e, w)

-- The error of a value that could not be read, or the value.
abbrev pub or_raise : {W A : Type 0} → Option A → Error → ActionOn W A
or_raise none e = raise e
or_raise (some a) e = pure a

abbrev pub of_result : {W A : Type 0} → Result A → ActionOn W A
of_result r w = (r, w)

-- A statement fails and changes nothing, or it runs.
unfoldable pub statement : {A : Type 0} → (Db → Result A × Db) → Action A
statement run w = elim w.faults [
  | [] ↦ let (r, d) = run w.db in (r, record { faults = []; db = d })
  | fails ∷ ahead ↦
      let (r, d) = run w.db in
      if fails
      then (err fault, record { faults = ahead; db = w.db })
      else (r, record { faults = ahead; db = d })
]

-- A query that also writes.
abbrev pub returning : {A : Type 0} → (Db → A × Db) → Db → Result A × Db
returning run d = let (a, d') = run d in (ok a, d')

unfoldable pub query : {A : Type 0} → (Db → A) → Action A
unfolding statement
query read = statement (λ d. (ok (read d), d))

unfoldable pub execute : (Db → Db) → Action Unit
unfolding statement
execute write = statement (λ d. (ok tt, write d))

abbrev pub idle : Db → Db
idle d = d

-- The function of a transaction runs between a begin and a commit. Where one of the three fails, the
-- database `d` from before is there again, as after a rollback.
unfoldable pub after_commit : {A : Type 0} → Db → A → Result Unit × World → Result A × World
after_commit d a (err e, w) = (err e, record w { db = d })
after_commit d a (ok _, w) = (ok a, w)

unfoldable pub after_body : {A : Type 0} → Db → Result A × World → Result A × World
unfolding after_commit execute
after_body d (err e, w) = (err e, record w { db = d })
after_body d (ok a, w) = after_commit d a (execute idle w)

unfoldable pub after_begin : {A : Type 0} → Action A → Db → Result Unit × World → Result A × World
unfolding after_body
after_begin body d (err e, w) = (err e, w)
after_begin body d (ok _, w) = after_body d (body w)

unfoldable pub in_tx : {A : Type 0} → Action A → Action A
unfolding after_begin execute
in_tx body w = after_begin body w.db (execute idle w)

-- Go's check that an update has found its row.
unfoldable pub matched_row : ℕ → Action Unit
matched_row n = if n == 0 then raise not_found else pure tt

-- The rows that an update with a `WHERE` writes, and how many it found.
abbrev pub update_where : {Row : Type 0} → (Row → Bool) → (Row → Row) → List Row → List Row
update_where test write rows = map (λ r. if test r then write r else r) rows
