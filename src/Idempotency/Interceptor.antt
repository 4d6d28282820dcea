-- ===== src/Idempotency/Interceptor.antt =====
-- api/src/common/interceptors/idempotency.interceptor.ts: requests with one key, interleaved in any
-- order, an access to Redis at a time.
use eco_mint.Prelude.{
  ℕ, String, Bool, true, false, not, ◌||◌, Option, none, some, List, [], ◌∷◌, ◌≡◌, nat_eq, str_eq,
  if◌then◌else◌,
}
use eco_mint.Idempotency.Service.{
  IdempotencyStatus, pending, success, error, IdempotencyRecord, mark_pending, Ending, returned,
  threw, completed,
}

-- What the client gets without a run of the handler, or that the handler's own ending was passed on.
pub data Answer : Type 0 where
  other_payload in_progress : Answer
  replayed : (result : Option String) (status_code : Option ℕ) → Answer
  own : Answer

abbrev pub by_status : IdempotencyRecord → IdempotencyStatus → Option Answer
by_status r success = some (replayed r.result r.status_code)
by_status r pending = some in_progress
by_status r error = none

-- What a record that was read tells a request; `none` lets it go on.
unfoldable pub check : String → Option IdempotencyRecord → Option Answer
check fingerprint none = none
check fingerprint (some r) =
    if not (str_eq r.fingerprint fingerprint) then some other_payload else by_status r r.status

-- Where a request stands, with the local variables that are live there.
pub data Pc : Type 0 where
  arrived : (fingerprint : String) → Pc  -- before the first `get`
  checked : (fingerprint : String) → Pc  -- before `markPending`
  not_acquired : (fingerprint : String) → Pc  -- before the second `get`
  executing : (fingerprint : String) → Pc  -- in the handler
  completing : (ending : Ending) → Pc  -- before the `get` of `complete`
  storing : (existing : Option IdempotencyRecord) (ending : Ending) → Pc  -- before its `setEx`
  finished : Answer → Pc

-- `executed` are the requests whose handler was started, the last one first; `failed` tells that a
-- handler threw.
pub record System : Type 0 where
  pub slot : Option IdempotencyRecord
  pub pc : ℕ → Pc
  pub executed : List ℕ
  pub failed : Bool

abbrev pub update : {A : Type 0} → (ℕ → A) → ℕ → A → ℕ → A
update f i a j = if nat_eq i j then a else f j

abbrev pub threw_error : Ending → Bool
threw_error (returned result hash) = false
threw_error (threw message) = true

abbrev pub after_look : String → Option Answer → Pc
after_look fingerprint none = checked fingerprint
after_look fingerprint (some answer) = finished answer

abbrev pub after_reserve : String → Bool → Pc
after_reserve fingerprint true = executing fingerprint
after_reserve fingerprint false = not_acquired fingerprint

abbrev pub after_second_look : String → Option Answer → Pc
after_second_look fingerprint none = executing fingerprint
after_second_look fingerprint (some answer) = finished answer

abbrev pub started : ℕ → List ℕ → Pc → List ℕ
started i xs (executing fingerprint) = i ∷ xs
started i xs pc = xs

unfoldable pub look : System → ℕ → String → System
look s i fingerprint = record s {
  pc = update s.pc i (after_look fingerprint (check fingerprint s.slot));
}

unfoldable pub reserve : System → ℕ → String → ℕ → System
reserve s i fingerprint now =
    let (slot, acquired) = mark_pending fingerprint now s.slot in
    let next = after_reserve fingerprint acquired in
    record s { slot = slot; pc = update s.pc i next; executed = started i s.executed next }

unfoldable pub look_again : System → ℕ → String → System
look_again s i fingerprint =
    let next = after_second_look fingerprint (check fingerprint s.slot) in
    record s { pc = update s.pc i next; executed = started i s.executed next }

unfoldable pub handle : System → ℕ → Ending → System
handle s i ending = record s {
  pc = update s.pc i (completing ending);
  failed = s.failed || threw_error ending;
}

unfoldable pub read_existing : System → ℕ → Ending → System
read_existing s i ending = record s { pc = update s.pc i (storing s.slot ending) }

unfoldable pub store : System → ℕ → Option IdempotencyRecord → Ending → ℕ → ℕ → System
store s i existing ending status_code now = record s {
  slot = some (completed existing ending status_code now);
  pc = update s.pc i (finished own);
}

pub data Step (s : System) : System → Type 0 where
  looks : (i : ℕ) (fp : String) → s.pc i ≡ arrived fp → Step s (look s i fp)
  reserves : (i : ℕ) (fp : String) (now : ℕ) → s.pc i ≡ checked fp → Step s (reserve s i fp now)
  looks_again : (i : ℕ) (fp : String) → s.pc i ≡ not_acquired fp → Step s (look_again s i fp)
  handles : (i : ℕ) (fp : String) (e : Ending) → s.pc i ≡ executing fp → Step s (handle s i e)
  reads : (i : ℕ) (e : Ending) → s.pc i ≡ completing e → Step s (read_existing s i e)
  stores :
      (i : ℕ) (r : Option IdempotencyRecord) (e : Ending) (status_code now : ℕ)
      → s.pc i ≡ storing r e
      → Step s (store s i r e status_code now)

-- Requests that have just arrived, with their fingerprints, at a key without a record.
abbrev pub init : (ℕ → String) → System
init fingerprints = record {
  slot = none;
  pc = λ i. arrived (fingerprints i);
  executed = [];
  failed = false;
}

pub data Steps (s : System) : System → Type 0 where
  stay : Steps s s
  after : {t u : System} → Steps s t → Step t u → Steps s u
