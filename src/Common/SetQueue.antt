-- ===== src/Common/SetQueue.antt =====
-- common/types/set_queue.h: `class set_queue`, a queue that holds no element twice. The set of
-- references to the elements of the queue, compared by value, is a list of the elements.
use marketblocks.Prelude.{
  false, Option, none, some, List, [], ◌∷◌, ◌++◌, ◌≡◌, refl, inl, inr, arith, ◌==◌, Equality,
  nat_equality, elem, Distinct, Distinct-append, elem-append, Bool-cases, if◌then◌else◌,
}

pub record SetQueue (T : Type 0) : Type 0 where
  pub queue : List T
  pub set : List T

abbrev pub new_set_queue : {T : Type 0} → SetQueue T
new_set_queue = record { queue = []; set = [] }

-- The calls of a history.
pub data QueueCall (T : Type 0) : Type 0 where
  pushes : T → QueueCall T
  pops : QueueCall T

module _ {T : Type 0} ⦃e : Equality T⦄ where
  unfoldable pub set_remove : T → List T → List T
  set_remove x [] = []
  set_remove x (y ∷ ys) = let rest = set_remove x ys in if y == x then rest else y ∷ rest

  unfoldable pub push : T → SetQueue T → SetQueue T
  push x q = if elem x q.set then q else record { queue = q.queue ++ (x ∷ []); set = x ∷ q.set }

  -- `none` is the front of an empty queue, which C++ leaves undefined.
  unfoldable pub pop : SetQueue T → Option (T × SetQueue T)
  unfolding set_remove
  pop q = elim q.queue [
    | [] ↦ none
    | x ∷ xs ↦ some (x, record { queue = xs; set = set_remove x q.set })
  ]

  -- A call on the queue, where a pop of an empty queue is not made.
  unfoldable pub call : QueueCall T → SetQueue T → SetQueue T
  unfolding push pop
  call (pushes x) q = push x q
  call pops q = elim (pop q) [ none ↦ q | some (x, q') ↦ q' ]

  unfoldable pub calls : List (QueueCall T) → SetQueue T → SetQueue T
  calls [] q = q
  calls (c ∷ cs) q = calls cs (call c q)

  -- The set holds what the queue holds, and the queue holds nothing twice.
  pub record IsMatched (q : SetQueue T) : Type 0 where
    pub same : (x : T) → elem x q.set ≡ elem x q.queue
    pub distinct : Distinct q.queue

  elem-set_remove :
      (x y : T) (ys : List T) → elem y (set_remove x ys) ≡ (if x == y then false else elem y ys)
  unfolding set_remove
  elem-set_remove x y [] = ground arith
  elem-set_remove x y (z ∷ zs) =
      ground (arith, e.beq_iff x y, e.beq_iff z x, e.beq_iff z y, elem-set_remove x y zs)

  push-IsMatched : (x : T) (q : SetQueue T) → IsMatched q → IsMatched (push x q)
  unfolding push
  push-IsMatched x q v = elim (Bool-cases (elem x q.set)) [
    | inl held ↦ rw held v
    | inr fresh ↦ rw fresh (record {
      same = λ y. ground (arith, v.same y, elem-append y q.queue (x ∷ []));
      distinct = Distinct-append q.queue x (ground (arith, v.same x)) v.distinct;
    })
  ]

  popped-IsMatched :
      (x : T) (xs set : List T)
      → IsMatched (record { queue = x ∷ xs; set = set })
      → IsMatched (record { queue = xs; set = set_remove x set })
  popped-IsMatched x xs set v = record {
    same = λ y. ground (arith, v.same y, v.distinct.0, elem-set_remove x y set, e.beq_iff x y);
    distinct = v.distinct.1;
  }

  pops-IsMatched :
      (queue set : List T)
      → IsMatched (record { queue = queue; set = set })
      → IsMatched (call pops (record { queue = queue; set = set }))
  unfolding call pop
  pops-IsMatched [] set v = v
  pops-IsMatched (x ∷ xs) set v = popped-IsMatched x xs set v

  call-IsMatched : (c : QueueCall T) (q : SetQueue T) → IsMatched q → IsMatched (call c q)
  unfolding call
  call-IsMatched (pushes x) q v = push-IsMatched x q v
  call-IsMatched pops q v = pops-IsMatched q.queue q.set v

  -- After any pushes and pops on a new queue, with no pop of an empty queue, the set holds exactly
  -- what the queue holds, and the queue holds no element twice.
  pub calls-IsMatched : (cs : List (QueueCall T)) → IsMatched (calls cs new_set_queue)
  unfolding calls
  calls-IsMatched cs = go cs new_set_queue (record { same = λ x. refl; distinct = tt })
    where
      go : (cs : List (QueueCall T)) (q : SetQueue T) → IsMatched q → IsMatched (calls cs q)
      go [] q v = v
      go (c ∷ cs) q v = go cs (call c q) (call-IsMatched c q v)
