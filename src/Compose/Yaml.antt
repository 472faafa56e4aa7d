-- ===== src/Compose/Yaml.antt =====
-- The tree of package yaml.v3, as far as internal/compose changes it: the content of a mapping is its
-- pairs. Comments, styles and positions are left out.
use simpledeploy.Prelude.{
  Bool, true, false, ◌||◌, Option, none, some, ◌≡◌, refl, arith, if◌then◌else◌, ◌==◌, Bool-cases,
  inl, inr,
}
use simpledeploy.Prelude.Text.{Text, text_eq, text_beq_iff}

mutual
  pub data Node : Type 0 where
    scalar : Text → Text → Node
    sequence : Nodes → Node
    mapping : Fields → Node
    alias : Node

  pub data Nodes : Type 0 where
    nil : Nodes
    cons : Node → Nodes → Nodes

  pub data Fields : Type 0 where
    end : Fields
    field : Node → Node → Fields → Fields

-- A scalar of this value, by its value alone.
abbrev pub is_scalar : Text → Node → Bool
is_scalar text (scalar tag value) = value == text
is_scalar text (sequence items) = false
is_scalar text (mapping fields) = false
is_scalar text alias = false

-- The value of the first pair with the key.
unfoldable pub find_value : Text → Fields → Option Node
find_value key end = none
find_value key (field k v fs) = if is_scalar key k then some v else find_value key fs

-- The same value replaced: it is a pointer in the source.
unfoldable pub put_value : Text → Node → Fields → Fields
put_value key new end = end
put_value key new (field k v fs) =
    let rest = put_value key new fs in if is_scalar key k then field k new fs else field k v rest

-- `append` to the content of a mapping and of a sequence.
unfoldable pub add_field : Node → Node → Fields → Fields
add_field key value end = field key value end
add_field key value (field k v fs) = field k v (add_field key value fs)

unfoldable pub add_item : Node → Nodes → Nodes
add_item new nil = cons new nil
add_item new (cons x xs) = cons x (add_item new xs)

unfoldable pub has_item : Text → Nodes → Bool
has_item text nil = false
has_item text (cons x xs) = is_scalar text x || has_item text xs

pub find_value-put_value :
    (key : Text) (old new : Node) (fs : Fields)
    → find_value key fs ≡ some old
    → find_value key (put_value key new fs) ≡ some new
unfolding find_value put_value
find_value-put_value key old new end h = cc
find_value-put_value key old new (field k v fs) h = elim (Bool-cases (is_scalar key k)) [
  | inl same ↦ rw (same, find_value, same)
  | inr other ↦
      rw (other, find_value, other)
        (find_value-put_value key old new fs (rw (other, find_value) at h))
]

pub put_value-find_value :
    (key : Text) (v : Node) (fs : Fields) → find_value key fs ≡ some v → put_value key v fs ≡ fs
unfolding find_value put_value
put_value-find_value key v end h = cc
put_value-find_value key v (field k w fs) h = ground (arith, put_value-find_value key v fs)

-- One scalar is not two texts.
is_scalar_ne :
    (s t : Text) (k : Node) → (s == t) ≡ false → is_scalar t k ≡ true → is_scalar s k ≡ false
is_scalar_ne s t (scalar tag v) ne h =
    ground (arith, text_beq_iff v t, text_beq_iff v s, text_beq_iff s t)
is_scalar_ne s t (sequence items) ne h = refl
is_scalar_ne s t (mapping fields) ne h = refl
is_scalar_ne s t alias ne h = refl

pub find_value-put_value_ne :
    (s t : Text) (new : Node) (fs : Fields)
    → (s == t) ≡ false
    → find_value s (put_value t new fs) ≡ find_value s fs
unfolding find_value put_value
find_value-put_value_ne s t new end ne = refl
find_value-put_value_ne s t new (field k v fs) ne = elim (Bool-cases (is_scalar t k)) [
  | inl there ↦ rw there (rw (is_scalar_ne s t k ne there))
  | inr other ↦ rw other (ground (arith, find_value-put_value_ne s t new fs ne))
]

pub find_value-add_field :
    (key tag : Text) (v : Node) (fs : Fields)
    → find_value key fs ≡ none
    → (key == key) ≡ true
    → find_value key (add_field (scalar tag key) v fs) ≡ some v
unfolding find_value add_field
find_value-add_field key tag v end h same = rw same
find_value-add_field key tag v (field k w fs) h same =
    ground (arith, find_value-add_field key tag v fs)

pub find_value-add_field_ne :
    (s t tag : Text) (v : Node) (fs : Fields)
    → (t == s) ≡ false
    → find_value s (add_field (scalar tag t) v fs) ≡ find_value s fs
unfolding find_value add_field
find_value-add_field_ne s t tag v end ne = rw ne
find_value-add_field_ne s t tag v (field k w fs) ne =
    ground (arith, find_value-add_field_ne s t tag v fs ne)

pub has_item-add_item :
    (text tag : Text) (xs : Nodes)
    → (text == text) ≡ true
    → has_item text (add_item (scalar tag text) xs) ≡ true
unfolding has_item add_item
has_item-add_item text tag nil same = ground arith
has_item-add_item text tag (cons x xs) same = ground (arith, has_item-add_item text tag xs)
