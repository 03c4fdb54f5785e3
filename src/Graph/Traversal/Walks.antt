-- ===== src/Graph/Traversal/Walks.antt =====
-- Walks, and the loop of `descendants` and `ancestors` in protocol_graph/traversal.py.
use chain_sentinel.Base.{
  ℕ, zero, suc, ◌+◌, ◌≤◌, String, ◌≡◌, refl, sym, ap, ◌∙◌, subst, ◌↔◌, inl, inr, true, false, ◌||◌,
  List, [], ◌∷◌, ◌++◌, arith, ◌==◌, eq_iff, Bool-cases, length, length-append, mem, add, mem-add,
  mem-sorted, Distinct, Distinct-snoc, Within, length-Within, length-append, add-new,
}
use chain_sentinel.Graph.Traversal.{extend, collect, budget, collect_from}

-- A walk of at least one step, where `next` lists what one step leads to.
pub data Walks (next : String → List String) (start : String) : String → Type 0 where
  one : {b : String} → mem b (next start) ≡ true → Walks next start b
  more : {a b : String} → Walks next start a → mem b (next a) ≡ true → Walks next start b

mem-extend :
    (ns stack : List String) (a : String) → mem a (extend ns stack) ≡ (mem a ns || mem a stack)
unfolding mem
mem-extend [] stack a = refl
mem-extend (n ∷ ns) stack a = ground (arith, mem-extend ns (n ∷ stack) a)

length-extend : (ns stack : List String) → length (extend ns stack) ≡ length ns + length stack
length-extend [] stack = omega arith
length-extend (n ∷ ns) stack = omega (arith, length-extend ns (n ∷ stack))

predecessor : (n : ℕ) → 1 ≤ n → (m : ℕ) × (n ≡ suc m)
predecessor zero h = absurd (omega (arith, h))
predecessor (suc n) h = (n, refl)

module _ (next : String → List String) (targets : List String)
    (within : (a : String) → Within (next a) targets)
    (short : (a : String) → length (next a) ≤ length targets) (start : String) where
  record Invariant (collected seen stack : List String) : Type 0 where
    pub same : collected ≡ seen
    pub distinct : Distinct seen
    pub walked : (b : String) → (mem b seen || mem b stack) ≡ true → Walks next start b
    pub first : (b : String) → mem b (next start) ≡ true → (mem b seen || mem b stack) ≡ true
    pub closed :
        (a b : String)
        → mem a seen ≡ true
        → mem b (next a) ≡ true
        → (mem b seen || mem b stack) ≡ true

  Invariant-drop :
      (collected seen stack : List String) (current : String)
      → mem current seen ≡ true
      → Invariant collected seen (current ∷ stack)
      → Invariant collected seen stack
  unfolding mem
  Invariant-drop collected seen stack current e i = record {
    same = i.same;
    distinct = i.distinct;
    walked = λ b m. i.walked b (ground arith);
    first = λ b m. ground (arith, i.first b m, eq_iff b current);
    closed = λ a b m edge. ground (arith, i.closed a b m edge, eq_iff b current);
  }

  Invariant-take :
      (collected seen stack : List String) (current : String)
      → mem current seen ≡ false
      → Invariant collected seen (current ∷ stack)
      → Invariant (collected ++ current ∷ []) (add current seen) (extend (next current) stack)
  unfolding mem
  Invariant-take collected seen stack current e i =
      let grown : (b : String) → mem b (add current seen) ≡ (b == current || mem b seen) =
        λ b. mem-add b current seen in
      let pushed = mem-extend (next current) stack in
      let now : Walks next start current =
        i.walked current (ground (arith, eq_iff current current)) in
      record {
        same = add-new collected seen current e i.same;
        distinct =
            subst Distinct (add-new seen seen current e refl)
              (Distinct-snoc seen current i.distinct e);
        walked = λ b m. elim (Bool-cases (mem b (next current))) [
          | inl edge ↦ more now edge
          | inr none_ ↦ i.walked b (ground (arith, grown b, pushed b))
        ];
        first = λ b m. ground (arith, i.first b m, grown b, pushed b);
        closed = λ a b m edge. elim (Bool-cases (a == current)) [
          | inl eq ↦
              let here_now : a ≡ current = ground (arith, eq_iff a current) in
              ground (arith, pushed b, subst (λ x. mem b (next x) ≡ true) here_now edge)
          | inr ne ↦ ground (arith, i.closed a b (ground (arith, grown a)) edge, grown b, pushed b)
        ];
      }

  walked-Within : (b : String) → Walks next start b → mem b targets ≡ true
  walked-Within b (one m) = within start b m
  walked-Within b (more {a} w m) = within a b m

  -- What is seen is different, and among the targets.
  Invariant-room :
      (collected seen stack : List String) (current : String)
      → mem current seen ≡ false
      → Invariant collected seen (current ∷ stack)
      → suc (length seen) ≤ length targets
  unfolding mem
  Invariant-room collected seen stack current e i =
      length-Within (current ∷ seen) targets (e, i.distinct)
        (λ a m. walked-Within a (i.walked a (ground arith)))

  -- Each round takes one item off the stack and pays for what it puts there.
  collect_ends :
      (fuel left : ℕ) (collected seen stack : List String)
      → left + length seen ≡ length targets
      → length stack + budget (length targets) left ≤ fuel
      → Invariant collected seen stack
      → Invariant
          (collect next fuel collected seen stack)
          (collect next fuel collected seen stack)
          []
  unfolding collect
  collect_ends zero left collected seen [] l f i =
      subst (λ s. Invariant collected s []) (sym i.same) i
  collect_ends zero left collected seen (s ∷ stack) l f i = absurd (omega (arith, f))
  collect_ends (suc fuel) left collected seen [] l f i =
      subst (λ s. Invariant collected s []) (sym i.same) i
  collect_ends (suc fuel) left collected seen (current ∷ stack) l f i =
      elim (Bool-cases (mem current seen)) [
        | inl e ↦
            rw (e, collect)
              (collect_ends fuel left collected seen stack l (omega (arith, f))
                (Invariant-drop collected seen stack current e i))
        | inr e ↦
            let room = Invariant-room collected seen stack current e i in
            let (left', one_less) = predecessor left (omega (arith, l, room)) in
            let seen_more : length (add current seen) ≡ length seen + 1 =
              sym (ap length (add-new seen seen current e refl))
              ∙ length-append seen (current ∷ []) in
            let paid : length (current ∷ stack) + budget (length targets) (suc left') ≤ suc fuel =
              subst (λ n. length (current ∷ stack) + budget (length targets) n ≤ suc fuel) one_less
                f in
            rw (e, collect)
              (collect_ends fuel left' (collected ++ current ∷ []) (add current seen) _
                (omega (arith, l, one_less, seen_more))
                (omega (arith, paid, length-extend (next current) stack, short current))
                (Invariant-take collected seen stack current e i))
      ]

-- What is listed is exactly what a walk of at least one edge leads to.
unfoldable pub Exact : (String → List String) → String → List String → Type 0
Exact next start listed = (b : String) → (mem b listed ≡ true) ↔ Walks next start b

Walks-closed :
    (next : String → List String) (start : String) (found : List String)
    → ((c : String) → mem c (next start) ≡ true → mem c found ≡ true)
    → ((a c : String) → mem a found ≡ true → mem c (next a) ≡ true → mem c found ≡ true)
    → (c : String) → Walks next start c
    → mem c found ≡ true
Walks-closed next start found first closed c (one m) = first c m
Walks-closed next start found first closed c (more {a} w m) =
    closed a c (Walks-closed next start found first closed a w) m

pub collect_from-Exact :
    (next : String → List String) (targets : List String)
    → ((a : String) → Within (next a) targets)
    → ((a : String) → length (next a) ≤ length targets)
    → (start : String) → Exact next start (collect_from next targets start)
unfolding Exact mem
collect_from-Exact next targets within short start b =
    let stack = extend (next start) [] in
    let pushed = mem-extend (next start) [] in
    let start_state : Invariant next targets within short start [] [] stack = record {
      same = refl;
      distinct = tt;
      walked = λ c m. one (ground (arith, pushed c));
      first = λ c m. ground (arith, pushed c);
      closed = λ a c m. cc;
    } in
    let fuel = length stack + budget (length targets) (length targets) in
    let i =
      collect_ends next targets within short start fuel (length targets) [] [] stack (omega arith)
        (omega arith) start_state in
    let listed = collect next fuel [] [] stack in
    rw mem-sorted (
      λ m. i.walked b (ground arith),
      Walks-closed next start listed (λ c m. ground (arith, i.first c m))
          (λ a c m edge. ground (arith, i.closed a c m edge)) b,
    )
