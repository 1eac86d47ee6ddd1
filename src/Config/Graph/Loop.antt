-- ===== src/Config/Graph/Loop.antt =====
-- The sorting loop as a whole, from its first queue to its last.
use duto_ai.Prelude.{
  ℕ, zero, suc, ◌+◌, ◌≤◌, ◌<◌, List, [], ◌∷◌, ◌++◌, length, ◌≡◌, refl, ap, ◌∙◌, arith,
  if◌then◌else◌, ◌==◌, ltb, length-append, ok,
}
use duto_ai.Prelude.Arrays.{get_or, count}
use duto_ai.Config.Graph.{Graph, Sorting, free_from, release_one, release, round, drain, start}
use duto_ai.Config.Graph.Counting.{total, Once, length-le_Once}
use duto_ai.Config.Graph.Rounds.{Inv, round-Inv}

free_from_below : (i v : ℕ) (degrees : List ℕ) → v < i → count v (free_from i degrees) ≡ 0
unfolding free_from
free_from_below i v [] h = refl
free_from_below i v (d ∷ degrees) h = ground (arith, free_from_below (suc i) v degrees)

free_from_at :
    (i j v : ℕ) (degrees : List ℕ)
    → v ≡ i + j
    → count v (free_from i degrees)
      ≡ (if ltb j (length degrees) then (if get_or degrees j 0 == 0 then 1 else 0) else 0)
unfolding free_from
free_from_at i j v [] e = ground arith
free_from_at i zero v (d ∷ degrees) e = ground (arith, free_from_below (suc i) v degrees)
free_from_at i (suc j) v (d ∷ degrees) e = ground (arith, free_from_at (suc i) j v degrees)

start-Once : (n : ℕ) (degrees : List ℕ) → length degrees ≡ n → Once n (free_from 0 degrees)
start-Once n degrees e = record {
  once = λ v. ground (arith, free_from_at 0 v v degrees);
  inside = λ v h. ground (arith, free_from_at 0 v v degrees);
}

release-sorted : (vs : List ℕ) (s : Sorting) → (release vs s).sorted ≡ s.sorted
unfolding release
release-sorted [] s = refl
release-sorted (v ∷ vs) s = release-sorted vs (release_one v s)

round-sorted :
    (g : Graph) (current : ℕ) (rest : List ℕ) (s : Sorting)
    → (round g current rest s).sorted ≡ s.sorted ++ current ∷ []
round-sorted g current rest s = release-sorted (get_or g.edges current []) _

drain-round :
    (fuel : ℕ) (g : Graph) (current : ℕ) (rest : List ℕ) (s : Sorting)
    → s.queue ≡ current ∷ rest
    → drain (suc fuel) g s ≡ drain fuel g (round g current rest s)
unfolding drain
drain-round fuel g current rest s e = rw e

module _ (g : Graph) (n : ℕ) (sized : length g.edges ≡ n)
    (inside : (u v : ℕ) → n ≤ v → count v (get_or g.edges u []) ≡ 0) where
  pub start-Inv :
      length g.degrees ≡ n
      → ((v : ℕ) → v < n → get_or g.degrees v 0 ≡ total g.edges v)
      → Inv g n sized inside [] (start g)
  start-Inv e agree = record {
    degrees = e;
    once = start-Once n g.degrees e;
    free = λ v h. ground (arith, free_from_at 0 v v g.degrees);
    left = λ v h. omega (arith, agree v h);
    ordered = tt;
  }

  -- The loop ends with an empty queue, given one round more than steps are left.
  pub record Ended (fuel : ℕ) (s : Sorting) : Type 0 where
    pub last : Sorting
    pub result : drain fuel g s ≡ ok last
    pub inv : Inv g n sized inside [] last
    pub empty : last.queue ≡ []

  pub drain-Ended :
      (fuel : ℕ) (s : Sorting)
      → Inv g n sized inside [] s
      → n < fuel + length s.sorted
      → Ended fuel s
  unfolding drain
  drain-Ended zero s i h = absurd (
      omega
        (arith, length-le_Once n (s.sorted ++ s.queue) i.once, length-append {0} s.sorted s.queue))
  drain-Ended (suc fuel) s i h = split (λ t inv more. drain-Ended fuel t inv more) s.queue refl
    where
      split :
          ((t : Sorting) → Inv g n sized inside [] t → n < fuel + length t.sorted → Ended fuel t)
          → (q : List ℕ) → s.queue ≡ q
          → Ended (suc fuel) s
      split continue [] e = record { last = s; result = rw e; inv = i; empty = e }
      split continue (current ∷ rest) e =
          let t : Sorting = round g current rest s in
          let ended : Ended fuel t = continue t (round-Inv g n sized inside current rest s e i) (
            omega (
              arith,
              ap (length {A = ℕ}) (round-sorted g current rest s),
              length-append {0} s.sorted (current ∷ []),
              h,
            )) in
          record {
            last = ended.last;
            result = drain-round fuel g current rest s e ∙ ended.result;
            inv = ended.inv;
            empty = ended.empty;
          }
