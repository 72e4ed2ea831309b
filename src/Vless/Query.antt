-- ===== src/Vless/Query.antt =====
-- What backend/internal/vless takes of net/url and encoding/json: the values of a query, which have
-- one value for a key that is set, and JSON values.
use xray2wg.Base.{
  ℕ, Bool, false, Option, none, some, List, [], ◌∷◌, Text, text_eq, if◌then◌else◌, is_empty, lookup,
  insert, lookup-insert, Distinct, text_beq, ◌≡◌, refl, arith, Option-cases, Bool-cases,
  text_beq_iff, ◌∙◌,
}

-- url.Values
abbrev pub Query : Type 0
Query = List (Text × Text)

abbrev pub or_none : Option Text → Text
or_none none = []
or_none (some v) = v

abbrev pub first_of : Option Text → Option Text → Option Text
first_of none o = o
first_of (some v) o = some v

-- `q.Get(k)`
unfoldable pub get : Text → Query → Text
unfolding lookup
get k q = or_none (lookup k q)

-- `if v != "" { q.Set(k, v) }`
unfoldable pub put : Text → Text → Query → Query
unfolding insert
put k v q = if is_empty v then q else insert k v q

-- `for k, vs := range share { for _, v := range vs { q.Set(k, v) } }`
unfoldable pub set_all : Query → Query → Query
unfolding insert
set_all [] q = q
set_all ((k, v) ∷ share) q = set_all share (insert k v q)

-- map[string]any and the values in it, as far as the settings go.
mutual
  pub data Json : Type 0 where
    bool : Bool → Json
    number : ℕ → Json
    text : Text → Json
    texts : List Text → Json
    object : Fields → Json

  pub data Fields : Type 0 where
    end : Fields
    field : Text → Json → Fields → Fields

-- `if v != "" { out[k] = v }`
abbrev pub field_if : Text → Text → Fields → Fields
field_if k [] fs = fs
field_if k (c ∷ v) fs = field k (text (c ∷ v)) fs

-- `v`, or the default where it is empty.
abbrev pub default_string : Text → Text → Text
default_string [] d = d
default_string (c ∷ v) d = c ∷ v

pub get-put :
    (k j v : Text) (q : Query)
    → get k (put j v q) ≡ (if is_empty v then get k q else if text_beq j k then v else get k q)
unfolding get put
get-put k j [] q = refl
get-put k j (c ∷ v) q = ground (arith, lookup-insert j k (c ∷ v) q)

pub lookup-set_all :
    (k : Text) (share q : Query)
    → Distinct share
    → lookup k (set_all share q) ≡ first_of (lookup k share) (lookup k q)
unfolding lookup set_all
lookup-set_all k [] q d = refl
lookup-set_all k ((j, v) ∷ share) q d = ground (
  arith,
  lookup-set_all k share (insert j v q) d.1,
  lookup-insert j k v q,
  text_beq_iff j k,
  Option-cases (lookup k share),
)

-- A value that was put is read, and no other is changed.
pub get-put_same : (k v : Text) (q : Query) → get k q ≡ [] → get k (put k v q) ≡ v
get-put_same k [] q h = get-put k k [] q ∙ h
get-put_same k (c ∷ v) q h = ground (arith, get-put k k (c ∷ v) q, text_beq_iff k k)

get-put_other : (k j v : Text) (q : Query) → text_beq j k ≡ false → get k (put j v q) ≡ get k q
get-put_other k j v q h = ground (arith, get-put k j v q, Bool-cases (is_empty v))

pub get-nil : (k : Text) → get k [] ≡ []
unfolding get lookup
get-nil k = refl

pub over : (k j v w : Text) (q : Query) → text_beq j k ≡ false → get k q ≡ w → get k (put j v q) ≡ w
over k j v w q h e = get-put_other k j v q h ∙ e
