-- ===== src/Config/Graph/Counting.antt =====
-- The edges of a graph, counted by target: all of them, and those that leave some of the steps.
use duto_ai.Prelude.{
  ℕ, zero, suc, ◌+◌, ◌≤◌, ◌<◌, false, List, [], ◌∷◌, ◌++◌, length, ◌≡◌, refl, ◌∙◌, arith,
  if◌then◌else◌, ◌==◌, ◌⊎◌, inl, inr,
}
use duto_ai.Prelude.Arrays.{get_or, update, get_or-update, length-update, count}

-- The edges to a step.
abbrev pub total : List (List ℕ) → ℕ → ℕ
total [] v = 0
total (targets ∷ edges) v = count v targets + total edges v

-- The edges to a step from those listed.
abbrev pub sent : List (List ℕ) → List ℕ → ℕ → ℕ
sent edges [] v = 0
sent edges (u ∷ us) v = count v (get_or edges u []) + sent edges us v

pub sent-snoc :
    (edges : List (List ℕ)) (us : List ℕ) (u v : ℕ)
    → sent edges (us ++ u ∷ []) v ≡ sent edges us v + count v (get_or edges u [])
sent-snoc edges [] u v = omega arith
sent-snoc edges (w ∷ us) u v = omega (arith, sent-snoc edges us u v)

total-update :
    (edges : List (List ℕ)) (u v : ℕ)
    → u < length edges
    → total (update edges u (λ t. [])) v + count v (get_or edges u []) ≡ total edges v
total-update [] u v h = absurd (omega arith)
total-update (t ∷ edges) zero v h = omega arith
total-update (t ∷ edges) (suc u) v h = omega (arith, total-update edges u v (omega arith))

sent-update :
    (edges : List (List ℕ)) (u v : ℕ) (us : List ℕ)
    → u < length edges
    → count u us ≡ 0
    → sent (update edges u (λ t. [])) us v ≡ sent edges us v
sent-update edges u v [] h absent = refl
sent-update edges u v (w ∷ us) h absent =
    let apart : (u == w) ≡ false = ground arith in
    let kept : get_or (update edges u (λ t. [])) w [] ≡ get_or edges w [] =
      let read = get_or-update {A = List ℕ} edges u w (λ t. []) [] h in rw apart at read in
    rw kept (rw (sent-update edges u v us h (omega arith)))

-- No step stands twice, and each is one of so many.
pub record Once (n : ℕ) (us : List ℕ) : Type 0 where
  pub once : (v : ℕ) → count v us ≤ 1
  pub inside : (v : ℕ) → n ≤ v → count v us ≡ 0

pub tail-Once : (n u : ℕ) (us : List ℕ) → Once n (u ∷ us) → Once n us
tail-Once n u us o = record {
  once = λ v. omega (arith, o.once v);
  inside = λ v h. omega (arith, o.inside v h);
}

count_self : (u : ℕ) (us : List ℕ) → count u (u ∷ us) ≡ suc (count u us)
count_self u us = ground arith

pub head-lt : (n u : ℕ) (us : List ℕ) → Once n (u ∷ us) → u < n
head-lt n u us o = below_or (ltb_or n u)
  where
    below_or : (u < n) ⊎ (n ≤ u) → u < n
    below_or (inl h) = h
    below_or (inr h) = absurd (omega (arith, o.inside u h, count_self u us))

    ltb_or : (a b : ℕ) → (b < a) ⊎ (a ≤ b)
    ltb_or a b = ground arith

pub sent-le-total :
    (n : ℕ) (edges : List (List ℕ)) (us : List ℕ) (v : ℕ)
    → length edges ≡ n
    → Once n us
    → sent edges us v ≤ total edges v
sent-le-total n edges [] v e o = omega arith
sent-le-total n edges (u ∷ us) v e o =
    let inside : u < length edges = omega (arith, head-lt n u us o) in
    let absent : count u us ≡ 0 = omega (arith, o.once u, count_self u us) in
    omega (
      arith,
      total-update edges u v inside,
      sent-update edges u v us inside absent,
      sent-le-total n (update edges u (λ t. [])) us v
          (length-update {A = List ℕ} edges u (λ t. []) ∙ e) (tail-Once n u us o),
    )

-- Without one number.
abbrev without : ℕ → List ℕ → List ℕ
without v [] = []
without v (x ∷ xs) = if x == v then without v xs else x ∷ without v xs

length-without : (v : ℕ) (xs : List ℕ) → length (without v xs) + count v xs ≡ length xs
length-without v [] = omega arith
length-without v (x ∷ xs) = ground (arith, length-without v xs)

count-without :
    (v w : ℕ) (xs : List ℕ) → count w (without v xs) ≡ (if v == w then 0 else count w xs)
count-without v w [] = ground arith
count-without v w (x ∷ xs) = ground (arith, count-without v w xs)

-- There are at most so many.
pub length-le_Once : (n : ℕ) (us : List ℕ) → Once n us → length us ≤ n
length-le_Once zero [] o = omega arith
length-le_Once zero (u ∷ us) o = absurd (omega (arith, o.inside u, count_self u us))
length-le_Once (suc n) us o =
    let fewer : length (without n us) ≤ n = length-le_Once n (without n us) (record {
      once = λ v. ground (arith, count-without n v us, o.once v);
      inside = λ v h. ground (arith, count-without n v us, o.inside v);
    }) in
    omega (arith, fewer, length-without n us, o.once n)

-- If there are as many as that, each is among them.
pub count_full : (n v : ℕ) (us : List ℕ) → Once n us → length us ≡ n → v < n → count v us ≡ 1
count_full n v us o e h = elim (zero_or (count v us) (o.once v)) [
  | inr one ↦ one
  | inl none_there ↦ absurd (
      omega (
        arith,
        e,
        length-le_Once n (v ∷ us) (record {
          once = λ w. ground (arith, o.once w, none_there);
          inside = λ w k. ground (arith, o.inside w);
        }),
      ))
]
  where
    zero_or : (c : ℕ) → c ≤ 1 → (c ≡ 0) ⊎ (c ≡ 1)
    zero_or c k = ground arith

total_none :
    (edges : List (List ℕ)) (v : ℕ)
    → ((u : ℕ) → u < length edges → count v (get_or edges u []) ≡ 0)
    → total edges v ≡ 0
total_none [] v h = refl
total_none (t ∷ edges) v h =
    omega (arith, h 0 (omega arith), total_none edges v (λ u k. h (suc u) (omega arith)))

-- If all steps with an edge to a step are listed, all edges to it are counted.
pub total-le-sent :
    (n : ℕ) (edges : List (List ℕ)) (us : List ℕ) (v : ℕ)
    → length edges ≡ n
    → Once n us
    → ((u : ℕ) → u < n → 0 < count v (get_or edges u []) → 0 < count u us)
    → total edges v ≤ sent edges us v
total-le-sent n edges [] v e o h =
    omega (arith, total_none edges v (λ u k. ground (arith, h u (omega (arith, e, k)))))
total-le-sent n edges (u ∷ us) v e o h =
    let inside : u < length edges = omega (arith, head-lt n u us o) in
    let absent : count u us ≡ 0 = omega (arith, o.once u, count_self u us) in
    let fewer : List (List ℕ) = update edges u (λ t. []) in
    omega (
      arith,
      total-update edges u v inside,
      sent-update edges u v us inside absent,
      total-le-sent n fewer us v (length-update {A = List ℕ} edges u (λ t. []) ∙ e)
          (tail-Once n u us o)
          (λ w k p.
            let read = get_or-update {A = List ℕ} edges u w (λ t. []) [] inside in
            ground (arith, read, h w k, p)),
    )

-- If each is among them, there are as many.
pub le-length_full : (n : ℕ) (us : List ℕ) → ((v : ℕ) → v < n → 0 < count v us) → n ≤ length us
le-length_full zero us h = omega arith
le-length_full (suc n) us h = omega (
  arith,
  h n (omega arith),
  length-without n us,
  le-length_full n (without n us) (λ v k. ground (arith, count-without n v us, h v)),
)
