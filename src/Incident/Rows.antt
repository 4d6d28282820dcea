-- ===== src/Incident/Rows.antt =====
-- Laws of the two statements on a list of rows, SELECT and UPDATE.
use eco_mint.Prelude.{
  String, Bool, true, false, not, ◌&&◌, ◌||◌, Option, none, some, List, [], ◌∷◌, str_eq, str_eq_iff,
  ◌≡◌, refl, arith, if◌then◌else◌, All, All-mono, Bool-cases, inl, inr,
}
use eco_mint.Incident.Types.{OracleIncident, is_resolved}
use eco_mint.Incident.Repository.{find_where, update_where, is_open_at, has_id}

pub find_where-none :
    (p : OracleIncident → Bool) (rows : List OracleIncident)
    → find_where p rows ≡ none
    → All (λ r. p r ≡ false) rows
unfolding find_where
find_where-none p [] h = tt
find_where-none p (r ∷ rows) h = elim (Bool-cases (p r)) [
  | inl hit ↦ absurd (ground arith)
  | inr miss ↦ (miss, find_where-none p rows (ground arith))
]

pub find_where-holds :
    (p : OracleIncident → Bool) (rows : List OracleIncident) {r : OracleIncident}
    → find_where p rows ≡ some r
    → p r ≡ true
unfolding find_where
find_where-holds p [] h = cc
find_where-holds p (x ∷ rows) h = elim (Bool-cases (p x)) [
  | inl hit ↦ ground arith
  | inr miss ↦ find_where-holds p rows (ground arith)
]

-- What holds of every row holds of the row found.
pub find_where-All :
    (P : OracleIncident → Type 0) (p : OracleIncident → Bool) (rows : List OracleIncident)
    {r : OracleIncident}
    → All P rows
    → find_where p rows ≡ some r
    → P r
unfolding find_where
find_where-All P p [] h e = absurd (ground arith)
find_where-All P p (x ∷ rows) (here, h) e = elim (Bool-cases (p x)) [
  | inl hit ↦ let same : x ≡ _ = ground arith in rw same at here
  | inr miss ↦ find_where-All P p rows h (ground arith)
]

abbrev pub changed_by :
    (OracleIncident → Bool) → (OracleIncident → OracleIncident) → OracleIncident → OracleIncident
changed_by q f r = if q r then f r else r

pub All-update_where :
    (P Q : OracleIncident → Type 0) (q : OracleIncident → Bool)
    (f : OracleIncident → OracleIncident) (rows : List OracleIncident)
    → ((r : OracleIncident) → P r → Q (changed_by q f r))
    → All P rows
    → All Q (update_where q f rows)
unfolding update_where
All-update_where P Q q f [] keep h = tt
All-update_where P Q q f (r ∷ rows) keep (here, h) =
    (keep r here, All-update_where P Q q f rows keep h)

abbrev pub map_option :
    (OracleIncident → OracleIncident) → Option OracleIncident → Option OracleIncident
map_option f none = none
map_option f (some r) = some (f r)

-- A search by a test that the update keeps.
pub find_where-update_where :
    (p q : OracleIncident → Bool) (f : OracleIncident → OracleIncident) (rows : List OracleIncident)
    → ((r : OracleIncident) → q r ≡ true → p (f r) ≡ p r)
    → find_where p (update_where q f rows) ≡ map_option (changed_by q f) (find_where p rows)
unfolding find_where update_where
find_where-update_where p q f [] keep = refl
find_where-update_where p q f (r ∷ rows) keep =
    ground (arith, keep r, find_where-update_where p q f rows keep)

-- Two rows that the primary key or the partial unique index does not allow together.
abbrev pub clash : OracleIncident → OracleIncident → Bool
clash r x = str_eq r.id x.id || (not (is_resolved r.status) && is_open_at r.dedupe_key x)

abbrev pub Apart : List OracleIncident → Type 0
Apart [] = Unit {0}
Apart (r ∷ rows) = All (λ x. clash r x ≡ false) rows × Apart rows

-- An update that changes no key and opens no resolved row, at the rows that it touches.
pub record IsKeeping (q : OracleIncident → Bool) (f : OracleIncident → OracleIncident)
    : Type 0 where
  pub id : (r : OracleIncident) → (f r).id ≡ r.id
  pub dedupe_key : (r : OracleIncident) → (f r).dedupe_key ≡ r.dedupe_key
  pub closed :
      (r : OracleIncident)
      → q r ≡ true
      → is_resolved r.status ≡ true
      → is_resolved (f r).status ≡ true

module _ (q : OracleIncident → Bool) (f : OracleIncident → OracleIncident) (k : IsKeeping q f) where
  clash-changed_by :
      (r x : OracleIncident)
      → clash r x ≡ false
      → clash (changed_by q f r) (changed_by q f x) ≡ false
  clash-changed_by r x h =
      ground (arith, k.id r, k.id x, k.dedupe_key r, k.dedupe_key x, k.closed r, k.closed x)

  pub update_where-Apart : (rows : List OracleIncident) → Apart rows → Apart (update_where q f rows)
  unfolding update_where
  update_where-Apart [] h = tt
  update_where-Apart (r ∷ rows) (here, h) = (
    All-update_where (λ x. clash r x ≡ false) (λ x. clash (changed_by q f r) x ≡ false) q f rows
        (clash-changed_by r) here,
    update_where-Apart rows h,
  )

-- Where rows are apart, a test that only clashing rows pass together singles out the row found.
pub Apart-only :
    (t p : OracleIncident → Bool) (rows : List OracleIncident) (r : OracleIncident)
    → ((x y : OracleIncident) → t x ≡ true → t y ≡ true → clash x y ≡ true)
    → Apart rows
    → find_where p rows ≡ some r
    → t r ≡ true
    → All (λ x. t x ≡ true → x ≡ r) rows
unfolding find_where
Apart-only t p [] r both h e hr = tt
Apart-only t p (x ∷ rows) r both (here, h) e hr = elim (Bool-cases (p x)) [
  | inl hit ↦
      let same : x ≡ r = ground arith in
      (
        λ _. same,
        All-mono (λ y. clash x y ≡ false) (λ y. t y ≡ true → y ≡ r) rows
            (λ y apart hy. absurd (ground (arith, both x y))) here,
      )
  | inr miss ↦
      let found : find_where p rows ≡ some r = ground arith in
      let apart : clash x r ≡ false = find_where-All (λ y. clash x y ≡ false) p rows here found in
      (λ hx. absurd (ground (arith, both x r)), Apart-only t p rows r both h found hr)
]

pub has_id-clash :
    (id : String) (x y : OracleIncident)
    → has_id id x ≡ true
    → has_id id y ≡ true
    → clash x y ≡ true
has_id-clash id x y hx hy =
    ground (arith, str_eq_iff x.id id, str_eq_iff y.id id, str_eq_iff x.id y.id)

pub is_open_at-clash :
    (key : String) (x y : OracleIncident)
    → is_open_at key x ≡ true
    → is_open_at key y ≡ true
    → clash x y ≡ true
is_open_at-clash key x y hx hy = ground (
  arith,
  str_eq_iff x.dedupe_key key,
  str_eq_iff y.dedupe_key key,
  str_eq_iff y.dedupe_key x.dedupe_key,
)
