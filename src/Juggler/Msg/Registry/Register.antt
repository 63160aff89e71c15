-- ===== src/Juggler/Msg/Registry/Register.antt =====
-- juggler/msg/msg.go: what `RegisterCustomMsg` guarantees.
use mathlib.Core.Path.{subst}
use exp.Base.{
  ℕ, ◌+◌, ◌≤◌, ◌<◌, ◌≡◌, Bool, true, false, none, some, List, [], ◌∷◌, Text, text_eq_refl, pos,
  negsuc, int_eq, if◌then◌else◌, arith,
}
use exp.Juggler.Msg.{MessageType, custom_msg, is_read, is_write}
use exp.Juggler.Msg.Registry.{
  Registry, initial_registry, name_taken, lookup_name, set_name, register_custom_msg,
}

abbrev pub KeyBelow : ℕ → MessageType → Type 0
KeyBelow n (pos k) = k < n
KeyBelow n (negsuc k) = ⊥

abbrev pub KeysBelow : ℕ → List (MessageType × Text) → Type 0
KeysBelow n [] = Unit
KeysBelow n ((k, v) ∷ table) = KeyBelow n k × KeysBelow n table

-- Every type in the table is below the next custom type, and that is none of the reserved ones.
pub record IsValid (r : Registry) : Type 0 where
  pub custom : custom_msg ≤ r.next_custom_msg
  pub below : KeysBelow r.next_custom_msg r.lookup_message_type

pub initial_registry-IsValid : IsValid initial_registry
unfolding initial_registry
initial_registry-IsValid = omega arith

KeyBelow-ne : (n : ℕ) (k : MessageType) → KeyBelow n k → int_eq k (pos n) ≡ false
KeyBelow-ne n (pos k) h = ground arith
KeyBelow-ne n (negsuc k) h = absurd h

KeyBelow-suc : (n : ℕ) (k : MessageType) → KeyBelow n k → KeyBelow (n + 1) k
KeyBelow-suc n (pos k) h = omega arith
KeyBelow-suc n (negsuc k) h = h

set_name-KeysBelow :
    (n : ℕ) (name : Text) (table : List (MessageType × Text))
    → KeysBelow n table
    → KeysBelow (n + 1) (set_name (pos n) name table)
unfolding set_name
set_name-KeysBelow n name [] h = (omega arith, tt)
set_name-KeysBelow n name ((k, v) ∷ table) (h, hs) =
    rw (KeyBelow-ne n k h) (KeyBelow-suc n k h, set_name-KeysBelow n name table hs)

lookup_name-set_name :
    (n : ℕ) (name : Text) (table : List (MessageType × Text))
    → KeysBelow n table
    → lookup_name (pos n) (set_name (pos n) name table) ≡ name
unfolding lookup_name set_name
lookup_name-set_name n name [] h = ground arith
lookup_name-set_name n name ((k, v) ∷ table) (h, hs) =
    rw (KeyBelow-ne n k h) (rw (KeyBelow-ne n k h) (lookup_name-set_name n name table hs))

name_taken-set_name :
    (n : ℕ) (name : Text) (table : List (MessageType × Text))
    → KeysBelow n table
    → name_taken name (set_name (pos n) name table) ≡ true
unfolding name_taken set_name
name_taken-set_name n name [] h = ground (arith, text_eq_refl name)
name_taken-set_name n name ((k, v) ∷ table) (h, hs) =
    rw (KeyBelow-ne n k h) (ground (arith, name_taken-set_name n name table hs))

-- What a registration that succeeds gives: the type and the table.
abbrev pub Registered : Text → MessageType × Registry → Type 0
Registered name (mt, r) =
    IsValid r
    × (lookup_name mt r.lookup_message_type ≡ name)
    × (register_custom_msg name r ≡ none)
    × (is_read mt ≡ false)
    × (is_write mt ≡ false)

registered :
    (name : Text) (r : Registry)
    → IsValid r
    → Registered name (
      pos r.next_custom_msg,
      record {
        next_custom_msg = r.next_custom_msg + 1;
        lookup_message_type = set_name (pos r.next_custom_msg) name r.lookup_message_type;
      },
    )
unfolding register_custom_msg is_read is_write
registered name r v = (
  record {
    custom = omega arith;
    below = set_name-KeysBelow r.next_custom_msg name r.lookup_message_type v.below;
  },
  lookup_name-set_name r.next_custom_msg name r.lookup_message_type v.below,
  rw (name_taken-set_name r.next_custom_msg name r.lookup_message_type v.below),
  ground arith,
  ground arith,
)

-- A registration in a valid table that succeeds leaves a valid table, in which the new type has
-- the name, and in which the name cannot be registered again; the new type is neither that of a
-- client's message nor that of a server's.
pub register_custom_msg-Registered :
    (name : Text) (r r' : Registry) (mt : MessageType)
    → IsValid r
    → register_custom_msg name r ≡ some (mt, r')
    → Registered name (mt, r')
unfolding register_custom_msg
register_custom_msg-Registered name r r' mt v h =
    given (name_taken name r.lookup_message_type) _ h (registered name r v)
  where
    given :
        (taken : Bool) (new : MessageType × Registry)
        → (if taken then none else some new) ≡ some (mt, r')
        → Registered name new
        → Registered name (mt, r')
    given true new e reg = cc
    given false new e reg =
        let same : new ≡ (mt, r') = cc in subst (λ t. Registered name t) same reg
