-- ===== src/Config/Graph/Rounds.antt =====
-- The rounds of the sorting loop.
use duto_ai.Prelude.{
  ℕ, suc, ◌+◌, ◌-◌, ◌≤◌, ◌<◌, List, [], ◌∷◌, ◌++◌, length, ◌≡◌, ap, ◌∙◌, arith, if◌then◌else◌, ◌==◌,
  ◌⊎◌, inl, inr, Bool-cases,
}
use duto_ai.Prelude.Arrays.{get_or, get_or-update, length-update, count, count-append}
use duto_ai.Config.Graph.{Graph, Sorting, release_one, release, round}
use duto_ai.Config.Graph.Counting.{total, sent, sent-snoc, sent-le-total, Once}

-- Each step with an edge to this one is among those seen.
abbrev pub Ready : List (List ℕ) → List ℕ → ℕ → Type 0
Ready edges seen v = (u : ℕ) → u < length edges → 0 < count v (get_or edges u []) → 0 < count u seen

-- Each step stands behind all steps with an edge to it.
abbrev pub Ordered : List (List ℕ) → List ℕ → List ℕ → Type 0
Ordered edges seen [] = Unit
Ordered edges seen (v ∷ vs) = Ready edges seen v × Ordered edges (seen ++ v ∷ []) vs

Ordered-snoc :
    (edges : List (List ℕ)) (seen us : List ℕ) (v : ℕ)
    → Ordered edges seen us
    → Ready edges (seen ++ us) v
    → Ordered edges seen (us ++ v ∷ [])
Ordered-snoc edges seen [] v o r = (λ u h k. omega (arith, r u h k, count-append u seen []), tt)
Ordered-snoc edges seen (w ∷ us) v o r = (
  o.0,
  Ordered-snoc edges (seen ++ w ∷ []) us v o.1 (λ u h k. omega (
    arith,
    r u h k,
    count-append u seen (w ∷ us),
    count-append u (seen ++ w ∷ []) us,
    count-append u seen (w ∷ []),
  )),
)

listed_after :
    (v w : ℕ) (s : Sorting)
    → count w (s.sorted ++ (release_one v s).queue)
      ≡ count w (s.sorted ++ s.queue)
        + (if get_or s.degrees v 0 == 1 then (if v == w then 1 else 0) else 0)
listed_after v w s = elim (Bool-cases (get_or s.degrees v 0 == 1)) [
  | inl e ↦ rw e (
      omega (
        arith,
        count-append w s.sorted (s.queue ++ v ∷ []),
        count-append w s.sorted s.queue,
        count-append w s.queue (v ∷ []),
      ))
  | inr e ↦ rw e (omega arith)
]

module _ (g : Graph) (n : ℕ) (sized : length g.edges ≡ n)
    (inside : (u v : ℕ) → n ≤ v → count v (get_or g.edges u []) ≡ 0) where
  -- What holds in the loop: the degree of a step counts the edges from steps that are not sorted, and
  -- those still to be released; and the steps of degree 0 are those sorted or queued, each once.
  pub record Inv (pending : List ℕ) (s : Sorting) : Type 0 where
    pub degrees : length s.degrees ≡ n
    pub once : Once n (s.sorted ++ s.queue)
    pub free :
        (v : ℕ)
        → v < n
        → count v (s.sorted ++ s.queue) ≡ (if get_or s.degrees v 0 == 0 then 1 else 0)
    pub left :
        (v : ℕ)
        → v < n
        → get_or s.degrees v 0 + sent g.edges s.sorted v ≡ total g.edges v + count v pending
    pub ordered : Ordered g.edges [] s.sorted

  pub sorted-Once : (pending : List ℕ) (s : Sorting) → Inv pending s → Once n s.sorted
  sorted-Once pending s i = record {
    once = λ v. omega (arith, i.once.once v, count-append v s.sorted s.queue);
    inside = λ v h. omega (arith, i.once.inside v h, count-append v s.sorted s.queue);
  }

  -- A step of degree 0 is ready once nothing is left to release.
  free-Ready :
      (s : Sorting) (v : ℕ)
      → Inv [] s
      → v < n
      → 0 < count v (s.sorted ++ s.queue)
      → Ready g.edges s.sorted v
  free-Ready s v i h listed u in_range edge = elim (zero_or (count u s.sorted)) [
    | inr some_there ↦ some_there
    | inl absent ↦
        let more : Once n (u ∷ s.sorted) = record {
          once = λ w. ground (arith, (sorted-Once [] s i).once w, absent);
          inside = λ w k. ground (arith, (sorted-Once [] s i).inside w);
        } in
        let free : get_or s.degrees v 0 ≡ 0 = ground (arith, i.free v h) in
        absurd
          (omega (arith, i.left v h, free, sent-le-total n g.edges (u ∷ s.sorted) v sized more))
  ]
    where
      zero_or : (c : ℕ) → (c ≡ 0) ⊎ (0 < c)
      zero_or c = ground arith

  -- A step that an edge still to be released leads to has a degree.
  held :
      (v : ℕ) (pending : List ℕ) (s : Sorting)
      → Inv (v ∷ pending) s
      → v < n
      → 0 < get_or s.degrees v 0
  held v pending s i h =
      let counted : count v (v ∷ pending) ≡ suc (count v pending) = ground arith in
      omega (
        arith,
        i.left v h,
        counted,
        sent-le-total n g.edges s.sorted v sized (sorted-Once (v ∷ pending) s i),
      )

  release_one-Inv :
      (v : ℕ) (pending : List ℕ) (s : Sorting)
      → v < n
      → Inv (v ∷ pending) s
      → Inv pending (release_one v s)
  release_one-Inv v pending s h i =
      let in_range : v < length s.degrees = omega (arith, i.degrees) in
      let some_left : 0 < get_or s.degrees v 0 = held v pending s i h in
      record {
        degrees = length-update {A = ℕ} s.degrees v (λ d. d - 1) ∙ i.degrees;
        once = record {
          once = λ w. ground (arith, listed_after v w s, i.once.once w, i.free v h, some_left);
          inside = λ w k. ground (arith, listed_after v w s, i.once.inside w k, h, k);
        };
        free = λ w k.
            let read = get_or-update {A = ℕ} s.degrees v w (λ d. d - 1) 0 in_range in
            ground (arith, read, listed_after v w s, i.free w k, some_left);
        left = λ w k.
            let read = get_or-update {A = ℕ} s.degrees v w (λ d. d - 1) 0 in_range in
            ground (arith, read, i.left w k, some_left);
        ordered = i.ordered;
      }

  release-Inv :
      (pending : List ℕ) (s : Sorting)
      → ((v : ℕ) → n ≤ v → count v pending ≡ 0)
      → Inv pending s
      → Inv [] (release pending s)
  unfolding release
  release-Inv [] s bounded i = i
  release-Inv (v ∷ pending) s bounded i =
      release-Inv pending (release_one v s) (λ w h. omega (arith, bounded w h))
        (release_one-Inv v pending s (in_bounds (lt_or n v)) i)
    where
      lt_or : (a b : ℕ) → (b < a) ⊎ (a ≤ b)
      lt_or a b = ground arith

      in_bounds : (v < n) ⊎ (n ≤ v) → v < n
      in_bounds (inl h) = h
      in_bounds (inr h) = absurd (ground (arith, bounded v h))

  -- A round keeps what holds in the loop.
  pub round-Inv :
      (current : ℕ) (rest : List ℕ) (s : Sorting)
      → s.queue ≡ current ∷ rest
      → Inv [] s
      → Inv [] (round g current rest s)
  round-Inv current rest s e i =
      let same : (w : ℕ)
          → count w ((s.sorted ++ current ∷ []) ++ rest) ≡ count w (s.sorted ++ s.queue) =
        λ w. omega (
          arith,
          count-append w (s.sorted ++ current ∷ []) rest,
          count-append w s.sorted s.queue,
          count-append w s.sorted (current ∷ []),
          ap (count w) e,
        ) in
      let queued : 0 < count current (s.sorted ++ s.queue) =
        ground (arith, count-append current s.sorted s.queue, ap (count current) e) in
      let in_range : current < n = in_bounds queued (lt_or n current) in
      release-Inv (get_or g.edges current [])
        (record { degrees = s.degrees; queue = rest; sorted = s.sorted ++ current ∷ [] })
        (λ v h. inside current v h)
        (record {
          degrees = i.degrees;
          once = record {
            once = λ w. omega (arith, same w, i.once.once w);
            inside = λ w h. omega (arith, same w, i.once.inside w h);
          };
          free = λ w h. same w ∙ i.free w h;
          left = λ w h. omega (arith, i.left w h, sent-snoc g.edges s.sorted current w);
          ordered =
              Ordered-snoc g.edges [] s.sorted current i.ordered
                (free-Ready s current i in_range queued);
        })
    where
      lt_or : (a b : ℕ) → (b < a) ⊎ (a ≤ b)
      lt_or a b = ground arith

      in_bounds :
          0 < count current (s.sorted ++ s.queue) → (current < n) ⊎ (n ≤ current) → current < n
      in_bounds q (inl h) = h
      in_bounds q (inr h) = absurd (omega (arith, q, i.once.inside current h))
