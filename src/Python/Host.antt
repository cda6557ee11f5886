-- ===== src/Python/Host.antt =====
-- The services of the standard library that stand outside the program.
use ai_oncall.Prelude.{ℕ, String}
use ai_oncall.Python.Json.{Json}

-- What the process takes from its surroundings. The readings of the clock and the random hex
-- digits are streams, numbered in the order in which the process asks for them. A time is a whole
-- number of the clock's smallest units.
pub record Host : Type 0 where
  -- the n-th `time.time()` or `time.monotonic()`
  pub clock : ℕ → ℕ
  -- the first k digits of the n-th `uuid.uuid4().hex`
  pub hex : ℕ → ℕ → String
  -- `hashlib.sha256(s.encode("utf-8")).hexdigest()`
  pub sha256_hex : String → String
  -- `json.dumps(v, ensure_ascii=False, sort_keys=True)`
  pub dumps_sorted : Json → String
  -- `json.dumps(v, ensure_ascii=False)`
  pub dumps : Json → String
  -- `json.dumps(v)`
  pub dumps_ascii : Json → String
  -- `repr(t)` of a time
  pub repr_time : ℕ → String
  -- the length of a second in the clock's units
  pub second : ℕ
