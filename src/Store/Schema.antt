-- ===== src/Store/Schema.antt =====
-- The tables of store.py (MIGRATIONS) and the dataclass Incident. A column that holds the JSON of a
-- dict of texts is that dict; the payload of a timeline event stays text, since it is hashed.
use ai_oncall.Prelude.{ℕ, suc, String, Bool, Option, List, [], Dict}
use ai_oncall.Python.Exec.{Exec, ok}
use ai_oncall.Python.Host.{Host}

pub record Incident : Type 0 where
  pub id : String
  pub fingerprint : String
  pub status : String
  pub severity : ℕ
  pub title : String
  pub labels : Dict String
  pub created_at : ℕ
  pub updated_at : ℕ

-- A row of `timeline`; `prev_hash` and `hash` are NULL in an event that is not chained.
pub record Event : Type 0 where
  pub id : ℕ
  pub incident_id : String
  pub kind : String
  pub payload_json : String
  pub created_at : ℕ
  pub prev_hash : Option String
  pub hash : Option String

pub record Prediction : Type 0 where
  pub id : String
  pub incident_id : String
  pub prompt_version : String
  pub hypotheses_json : String
  pub actions_json : String
  pub missing_context_json : String
  pub tokens_used : ℕ
  pub created_at : ℕ

pub record KnowledgeChunk : Type 0 where
  pub id : String
  pub source : String
  pub ref_id : Option String
  pub text : String
  -- the JSON text of the vector
  pub embedding : String
  pub embedding_provider : String
  pub service : Option String
  pub cluster : Option String
  pub severity : Option String
  pub created_at : ℕ

pub record ExecutedAction : Type 0 where
  pub action_key : String
  pub started_at : ℕ
  pub done_at : Option ℕ

pub record ApprovalRow : Type 0 where
  pub request_id : String
  pub incident_id : String
  pub report_json : String
  pub state : String
  pub created_at : ℕ

pub record ActionItem : Type 0 where
  pub id : String
  pub incident_id : String
  pub description : String
  pub owner : String
  pub due_ts : Option ℕ
  pub status : String
  pub created_at : ℕ

pub record ShadowScore : Type 0 where
  pub incident_id : String
  pub cause_correct : Bool
  pub action_usable : Bool
  pub reviewer : String
  pub created_at : ℕ

-- The database, and how often the clock was read and random digits were drawn so far.
pub record Store : Type 0 where
  pub incidents : List Incident
  pub timeline : List Event
  -- AUTOINCREMENT: the id of the next event
  pub next_event : ℕ
  pub predictions : List Prediction
  pub knowledge_chunks : List KnowledgeChunk
  pub executed_actions : List ExecutedAction
  pub approval_requests : List ApprovalRow
  pub action_items : List ActionItem
  pub shadow_scores : List ShadowScore
  pub reads : ℕ
  pub draws : ℕ

abbrev pub empty : Store
empty = record {
  incidents = [];
  timeline = [];
  next_event = 1;
  predictions = [];
  knowledge_chunks = [];
  executed_actions = [];
  approval_requests = [];
  action_items = [];
  shadow_scores = [];
  reads = 0;
  draws = 0;
}

module _ ⦃h : Host⦄ where
  -- time.time(), time.monotonic()
  abbrev pub time : Exec Store ℕ
  time s = (ok (h.clock s.reads), record s { reads = suc s.reads })

  -- uuid.uuid4().hex[:k]
  abbrev pub uuid_hex : ℕ → Exec Store String
  uuid_hex k s = (ok (h.hex s.draws k), record s { draws = suc s.draws })
