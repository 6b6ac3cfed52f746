-- ===== src/Common/Json/Loops.antt =====
-- The loops that read documents, as one read of each item and a pure function of what is read.
use marketblocks.Prelude.{
  lookup-emplace_any, ℕ, suc, ◌≡◌, refl, sym, ◌∙◌, ap, none, some, List, [], ◌∷◌, ◌++◌, foldl,
  arith, Equality, Map, lookup, emplace,
}
use mathlib.Core.List.{reverse, reverse_aux-eq-foldl}
use marketblocks.Common.Retry.{Result, success}
use marketblocks.Common.Json.{
  catching, Read, value, raised, unspecified, ◌>>=◌, range, for_each, read_each, prepend_each,
  emplace_each,
}

pub value_inj : {A : Type 0} {a b : A} → value a ≡ value b → a ≡ b
value_inj h = cc

some_inj : {A : Type 0} {a b : A} → some a ≡ some b → a ≡ b
some_inj h = cc

pub success_inj : {T : Type 0} {v w : T} → success v ≡ success w → v ≡ w
success_inj h = cc

-- What has to happen for a sequence of two reads to have a value.
pub bind-value :
    {A B : Type 0} (m : Read A) (f : A → Read B) (b : B)
    → (m >>= f) ≡ value b
    → (a : A) × (m ≡ value a) × (f a ≡ value b)
bind-value (value a) f b h = (a, refl, h)
bind-value (raised e) f b h = ground arith
bind-value unspecified f b h = ground arith

-- A value caught as a success is one that was read.
pub catching-success :
    {T : Type 0} (m : Read (Result T)) (v : T)
    → catching m ≡ some (success v)
    → m ≡ value (success v)
unfolding catching
catching-success (value r) v h = ap value (some_inj h)
catching-success (raised e) v h = ground arith
catching-success unspecified v h = ground arith

pub bind_assoc :
    {A B C : Type 0} (m : Read A) (f : A → Read B) (g : B → Read C)
    → (m >>= f >>= g) ≡ (m >>= (λ a. f a >>= g))
bind_assoc (value a) f g = refl
bind_assoc (raised e) f g = refl
bind_assoc unspecified f g = refl

pub bind_ext :
    {A B : Type 0} (m : Read A) (f g : A → Read B) → ((a : A) → f a ≡ g a) → (m >>= f) ≡ (m >>= g)
bind_ext (value a) f g h = h a
bind_ext (raised e) f g h = refl
bind_ext unspecified f g h = refl

bind_value : {A : Type 0} (m : Read A) → (m >>= value) ≡ m
bind_value (value a) = refl
bind_value (raised e) = refl
bind_value unspecified = refl

module _ {X A S : Type 0} (read : X → Read A) (change : S → A → S) where
  -- A loop that reads each item and changes its locals by what it reads.
  pub for_each-foldl :
      (xs : List X) (s : S)
      → for_each (λ x s. read x >>= (λ a. value (change s a))) xs s
        ≡ (read_each read xs >>= (λ as'. value (foldl change s as')))
  unfolding for_each read_each
  for_each-foldl [] s = refl
  for_each-foldl (x ∷ xs) s =
      bind_assoc (read x) (λ a. value (change s a))
        (for_each (λ x s. read x >>= (λ a. value (change s a))) xs)
      ∙ bind_ext (read x)
          (λ a. for_each (λ x s. read x >>= (λ a. value (change s a))) xs (change s a))
          (λ a.
            read_each read xs >>= (λ as'. value (a ∷ as')) >>= (λ as'. value (foldl change s as')))
          (λ a.
            for_each-foldl xs (change s a)
            ∙ sym (
                bind_assoc (read_each read xs) (λ as'. value (a ∷ as'))
                  (λ as'. value (foldl change s as'))))
      ∙ sym (
          bind_assoc (read x) (λ a. read_each read xs >>= (λ as'. value (a ∷ as')))
            (λ as'. value (foldl change s as')))

pub prepend_each-reverse :
    {X A : Type 0} (read : X → Read A) (xs : List X)
    → prepend_each read xs ≡ (read_each read xs >>= (λ as'. value (reverse as')))
unfolding prepend_each
prepend_each-reverse read xs =
    for_each-foldl read (λ as' a. a ∷ as') xs []
    ∙ bind_ext (read_each read xs) (λ as'. value (foldl (λ as' a. a ∷ as') [] as'))
        (λ as'. value (reverse as')) (λ as'. ap value (sym (reverse_aux-eq-foldl as' [])))

module _ {K V : Type 0} ⦃e : Equality K⦄ where
  lookup-foldl :
      (j : K) (es : List (K × V)) (m : Map K V)
      → lookup j (foldl {B = Map K V} (λ m (e : K × V). emplace e.0 e.1 m) m es)
        ≡ elim (lookup j m) [ none ↦ lookup j es | some w ↦ some w ]
  unfolding lookup
  lookup-foldl j [] m = ground arith
  lookup-foldl j ((k, v) ∷ es) m =
      ground (arith, lookup-foldl j es (emplace k v m), lookup-emplace_any k j v m)

  -- The map has of each key the first entry that is read.
  pub emplace_each-lookup :
      {X : Type 0} (read : X → Read (K × V)) (xs : List X) (m : Map K V)
      → emplace_each read xs ≡ value m
      → (es : List (K × V)) × (read_each read xs ≡ value es) × ((j : K) → lookup j m ≡ lookup j es)
  unfolding emplace_each lookup
  emplace_each-lookup read xs m h =
      let (es, p, same) =
        bind-value (read_each read xs) (λ es. value (foldl (λ m e. emplace e.0 e.1 m) [] es)) m
          (sym (for_each-foldl read (λ m e. emplace e.0 e.1 m) xs []) ∙ h) in
      (es, p, λ j. ap (lookup j) (sym (value_inj same)) ∙ lookup-foldl j es [])

module _ {X S : Type 0} (round : X → S → Read S) where
  for_each-append :
      (xs : List X) (x : X) (s : S)
      → for_each round (xs ++ x ∷ []) s ≡ (for_each round xs s >>= round x)
  unfolding for_each
  for_each-append [] x s = bind_value (round x s)
  for_each-append (y ∷ xs) x s =
      bind_ext (round y s) (for_each round (xs ++ x ∷ [])) (λ t. for_each round xs t >>= round x)
        (for_each-append xs x)
      ∙ sym (bind_assoc (round y s) (for_each round xs) (round x))

-- The last round of a loop over a counter follows the loop up to it.
pub for_each-range :
    {S : Type 0} (round : ℕ → S → Read S) (n : ℕ) (s : S)
    → for_each round (range (suc n)) s ≡ (for_each round (range n) s >>= round n)
unfolding range
for_each-range round n s = for_each-append round (range n) n s
