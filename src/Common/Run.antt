-- ===== src/Common/Run.antt =====
-- A call that changes an object: what it returns or throws, and the object after it. An exception
-- does not undo what the call has done by then.
use marketblocks.Prelude.{
  Bytes, Option, none, some, List, [], ◌∷◌, Bool, true, false, if◌then◌else◌,
}

-- exceptions/mb_exception.h with what the message says, and the exception of `at` of the containers.
pub data Exception : Type 0 where
  insufficient_funds : Bytes → Exception
  order_not_found : Bytes → Exception
  out_of_range : Exception
  could_not_parse : Bytes → Exception
  retries_exceeded : Exception
  -- `std::get` of a variant that holds another alternative
  bad_variant_access : Exception
  could_not_connect : Exception
  -- an exception that a library throws
  failed : Bytes → Exception

pub data Run (S A : Type 0) : Type 0 where
  returns : A → S → Run S A
  throws : Exception → S → Run S A
  -- a step that C++ leaves undefined, as a read past the end of a vector
  undefined : Run S A

module _ {S A : Type 0} where
  abbrev pub and_then : {B : Type 0} → Run S A → (A → S → Run S B) → Run S B
  and_then (returns a s) f = f a s
  and_then (throws e s) f = throws e s
  and_then undefined f = undefined

  -- The same call on a wider or an altered object.
  abbrev pub with_state : {T : Type 0} → (S → T) → Run S A → Run T A
  with_state g (returns a s) = returns a (g s)
  with_state g (throws e s) = throws e (g s)
  with_state g undefined = undefined

  -- What a read gives, where one out of range is undefined.
  abbrev pub or_undefined : Option A → S → Run S A
  or_undefined none s = undefined
  or_undefined (some a) s = returns a s

  -- The object after a call, whether it returned or threw.
  abbrev pub after : S → Run S A → S
  after s (returns a t) = t
  after s (throws e t) = t
  after s undefined = s

  -- A predicate of the object after the call, however it ends; an undefined call has none.
  abbrev pub Leaves : (S → Type 0) → Run S A → Type 0
  Leaves P (returns a s) = P s
  Leaves P (throws e s) = P s
  Leaves P undefined = ⊥

pub and_then-Leaves :
    {T A B : Type 0} (P : T → Type 0) (m : Run T A) (f : A → T → Run T B)
    → ((x : A) (t : T) → P t → Leaves P (f x t))
    → Leaves P m
    → Leaves P (and_then m f)
and_then-Leaves P (returns x t) f k h = k x t h
and_then-Leaves P (throws e t) f k h = h
and_then-Leaves P undefined f k h = h

module _ {S : Type 0} where
  -- A predicate of the object after the call, where that is defined.
  abbrev pub Ends : {A : Type 0} → (S → Type 0) → Run S A → Type 0
  Ends P (returns a s) = P s
  Ends P (throws e s) = P s
  Ends P undefined = Unit

  pub Ends-map :
      {A : Type 0} (P Q : S → Type 0) (m : Run S A) → ((t : S) → P t → Q t) → Ends P m → Ends Q m
  Ends-map P Q (returns x t) w h = w t h
  Ends-map P Q (throws e t) w h = w t h
  Ends-map P Q undefined w h = _

  pub if-Ends :
      {A : Type 0} (P : S → Type 0) (b : Bool) (m k : Run S A)
      → Ends P m
      → Ends P k
      → Ends P (if b then m else k)
  if-Ends P true m k p q = p
  if-Ends P false m k p q = q

  pub and_then-Ends :
      {A B : Type 0} (P Q : S → Type 0) (m : Run S A) (f : A → S → Run S B)
      → ((t : S) → P t → Q t)
      → ((x : A) (t : S) → P t → Ends Q (f x t))
      → Ends P m
      → Ends Q (and_then m f)
  and_then-Ends P Q (returns x t) f w k h = k x t h
  and_then-Ends P Q (throws e t) f w k h = w t h
  and_then-Ends P Q undefined f w k h = _

  -- A loop of calls over what a container holds.
  unfoldable pub run_each :
      {X : Type 0} → (X → S → Run S (Unit {0})) → List X → S → Run S (Unit {0})
  run_each call [] s = returns tt s
  run_each call (x ∷ xs) s = and_then (call x s) λ u t. run_each call xs t
