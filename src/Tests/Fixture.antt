-- ===== src/Tests/Fixture.antt =====
-- A small store, and services that can be computed with: the clock counts its readings, the hash is the
-- identity, and the JSON text of a text is that text.
use ai_oncall.Prelude.{◌+◌, String, false, [], ◌∷◌, Dict}
use ai_oncall.Python.Json.{Json, str}
use ai_oncall.Python.Host.{Host}
use ai_oncall.Store.Schema.{Incident, Store, empty}
use ai_oncall.Memory.Redact.{Patterns}
use ai_oncall.Incident.HashChain.{append}

abbrev dumps_text : Json → String
dumps_text (str s) = s
dumps_text _ = "{}"

instance abbrev pub test_host : Host
test_host = record {
  clock = λ n. 1000 + n;
  hex = λ n k. "0a1b2c";
  sha256_hex = λ s. s;
  dumps_sorted = dumps_text;
  dumps = dumps_text;
  dumps_ascii = dumps_text;
  repr_time = λ t. "0.0";
  second = 1;
}

instance abbrev pub test_patterns : Patterns
test_patterns = record { sub = λ name mark text. text; matches = λ name text. false }

abbrev pub labels : Dict String
labels = ("cluster", "eu") ∷ ("service", "pay") ∷ []

abbrev pub incident_of : String → String → String → Incident
incident_of i fingerprint status = record {
  id = i;
  fingerprint = fingerprint;
  status = status;
  severity = 2;
  title = "latency";
  labels = labels;
  created_at = 990;
  updated_at = 990;
}

abbrev pub first : Incident
first = incident_of "inc-1" "fp-1" "open"

abbrev pub second_one : Incident
second_one = incident_of "inc-2" "fp-2" "resolved"

abbrev pub shop : Store
shop = record empty { incidents = first ∷ second_one ∷ [] }

-- The store after one chained event of the first incident.
abbrev pub shop_1 : Store
shop_1 = (append "inc-1" "note" (str "a") shop).1
