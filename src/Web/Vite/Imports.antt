-- ===== src/Web/Vite/Imports.antt =====
-- The result of `importedChunks` of internal/web/vite.go.
use mrtp.Prelude.{
  ℕ, zero, suc, ◌+◌, ◌≤◌, ◌<◌, ◌≡◌, refl, sym, ◌∙◌, ◌==◌, ◌↔◌, ◌⊎◌, List, [], ◌∷◌, ◌++◌, map, true,
  false, ◌||◌, some, inl, inr, length, contains, Bool-cases, arith,
}
use mrtp.Web.Vite.{
  Name, Chunk, Manifest, Walked, get, each_import, get_imported_chunks, all_imports,
  imported_chunks,
}
use mrtp.Web.Vite.Walk.{
  contains-append, unseen, unseen-length, unseen-grows, unseen-new, IsNodup, IsNodup-append,
  Imports, direct, through, Imports-weaken, imports-all_imports,
}

map-append : (f : Name → Chunk) (xs ys : List Name) → map f (xs ++ ys) ≡ map f xs ++ map f ys
map-append f [] ys = refl
map-append f (x ∷ xs) ys = rw (map-append f xs ys)

in_visited :
    (x : Name) (xs : List Name) (f : Name) (ys : List Name)
    → contains x (xs ++ f ∷ ys) ≡ true
    → (contains x xs ≡ true) ⊎ ((f ≡ x) ⊎ (contains x ys ≡ true))
unfolding contains
in_visited x xs f ys e = elim (Bool-cases (contains x xs)) [
  | inl h ↦ inl h
  | inr h ↦ elim (Bool-cases (f == x)) [
    | inl s ↦ inr (inl (ground (arith, s)))
    | inr s ↦ inr (inr (ground (arith, contains-append x xs (f ∷ ys), e, h, s)))
  ]
]

module _ (m : Manifest) where
  -- What a walk over the files has returned, and what it has added to the names seen.
  record Outcome (files seen : List Name) (r : List Chunk × List Name) : Type 0 where
    names : List Name
    chunks : r.0 ≡ map (get m) names
    nodup : IsNodup names
    new : (x : Name) → contains x names ≡ true → contains x seen ≡ false
    added : (x : Name) → contains x r.1 ≡ (contains x seen || contains x names)
    covers : (x : Name) → contains x files ≡ true → contains x r.1 ≡ true
    closed :
        (x y : Name)
        → contains x names ≡ true
        → contains y (get m x).imports ≡ true
        → contains y r.1 ≡ true
    sound : (x : Name) → contains x names ≡ true → Imports m files x

  abbrev Done : List Name → List Name → Walked → Type 0
  Done files seen w = (r : List Chunk × List Name) × ((w ≡ some r) × Outcome files seen r)

  abbrev Within : List Name → Type 0
  Within files = (x : Name) → contains x files ≡ true → contains x (all_imports m) ≡ true

  -- A file that has been seen is skipped.
  skipped :
      (file : Name) (files seen : List Name) (r : List Chunk × List Name)
      → contains file seen ≡ true
      → Outcome files seen r
      → Outcome (file ∷ files) seen r
  unfolding contains
  skipped file files seen r was o = record {
    names = o.names;
    chunks = o.chunks;
    nodup = o.nodup;
    new = o.new;
    added = o.added;
    covers = λ x e. elim (Bool-cases (file == x)) [
      | inl s ↦
          let same : file ≡ x = ground (arith, s) in
          let there : contains x seen ≡ true = rw⁻¹ same was in ground (arith, o.added x, there)
      | inr s ↦ o.covers x (ground (arith, e, s))
    ];
    closed = o.closed;
    sound = λ x e.
        Imports-weaken m files (file ∷ files) x (λ y h. direct (ground (arith, h))) (o.sound x e);
  }

  -- A new file: its imports, then itself, then the other files.
  visited :
      (file : Name) (files seen : List Name) (r s : List Chunk × List Name)
      → contains file seen ≡ false
      → Outcome (get m file).imports (file ∷ seen) r
      → Outcome files r.1 s
      → Outcome (file ∷ files) seen (r.0 ++ get m file ∷ s.0, s.1)
  unfolding contains
  visited file files seen r s fresh o p =
      let once : contains file p.names ≡ false = elim (Bool-cases (contains file p.names)) [
        | inl e ↦ absurd (ground (arith, p.new file e, o.added file))
        | inr e ↦ e
      ] in
      record {
        names = o.names ++ file ∷ p.names;
        chunks = rw (map-append (get m) o.names (file ∷ p.names), o.chunks, p.chunks);
        nodup =
            IsNodup-append o.names (file ∷ p.names) o.nodup (once, p.nodup)
              (λ x e. ground (arith, o.new x, p.new x, o.added x, e));
        new = λ x e. ground (
          arith,
          contains-append x o.names (file ∷ p.names),
          o.new x,
          p.new x,
          o.added x,
          e,
          fresh,
        );
        added =
            λ x. ground (arith, contains-append x o.names (file ∷ p.names), o.added x, p.added x);
        covers = λ x e. ground (arith, o.added x, p.added x, p.covers x, e);
        closed = λ x y e h. elim (in_visited x o.names file p.names e) [
          | inl a ↦ ground (arith, o.closed x y a h, p.added y)
          | inr (inl a) ↦ ground (arith, o.covers y (rw a h), p.added y)
          | inr (inr a) ↦ p.closed x y a h
        ];
        sound = λ x e. elim (in_visited x o.names file p.names e) [
          | inl a ↦
              Imports-weaken m (get m file).imports (file ∷ files) x
                (λ y h. through (direct {x = file} (ground arith)) h) (o.sound x a)
          | inr (inl a) ↦ direct (ground (arith, a))
          | inr (inr a) ↦
              Imports-weaken m files (file ∷ files) x (λ y h. direct (ground (arith, h)))
                (p.sound x a)
        ];
      }

  -- The recursive call does its work where fewer than `n` imports have not been seen.
  abbrev Descends : ℕ → (List Name → List Name → Walked) → Type 0
  Descends n descend =
      (files seen : List Name)
      → Within files
      → unseen (all_imports m) seen < n
      → Done files seen (descend files seen)

  each_import-Done :
      (n : ℕ) (descend : List Name → List Name → Walked)
      → Descends n descend
      → (files seen : List Name) → Within files
      → unseen (all_imports m) seen ≤ n
      → Done files seen (each_import m descend files seen)
  unfolding each_import contains
  each_import-Done n descend works [] seen within few = (
    ([], seen),
    (
      refl,
      record {
        names = [];
        chunks = refl;
        nodup = tt;
        new = λ x e. absurd (ground (arith, e));
        added = λ x. ground arith;
        covers = λ x e. absurd (ground (arith, e));
        closed = λ x y e h. absurd (ground (arith, e));
        sound = λ x e. absurd (ground (arith, e));
      },
    ),
  )
  each_import-Done n descend works (file ∷ files) seen within few =
      let rest : Within files = λ x e. within x (ground (arith, e)) in
      elim (Bool-cases (contains file seen)) [
        | inl was ↦
            let (r, (e, o)) = each_import-Done n descend works files seen rest few in
            (r, (rw (each_import, was, e), skipped file files seen r was o))
        | inr fresh ↦
            let new = unseen-new (all_imports m) seen file (within file (ground arith)) fresh in
            let (r, (e, o)) =
              works (get m file).imports (file ∷ seen) (imports-all_imports m file)
                (omega (arith, new, few)) in
            let fewer =
              unseen-grows (all_imports m) seen r.1 (λ x h. ground (arith, o.added x, h)) in
            let (s, (e', p)) =
              each_import-Done n descend works files r.1 rest (omega (arith, fewer, few)) in
            (
              (r.0 ++ get m file ∷ s.0, s.1),
              (simp (each_import, fresh, e, e'), visited file files seen r s fresh o p),
            )
      ]

  get_imported_chunks-Descends : (n : ℕ) → Descends n (get_imported_chunks m n)
  unfolding get_imported_chunks
  get_imported_chunks-Descends zero files seen within few = absurd (omega (arith, few))
  get_imported_chunks-Descends (suc n) files seen within few =
      each_import-Done n (get_imported_chunks m n) (get_imported_chunks-Descends n) files seen
        within (omega (arith, few))

  -- What is imported is in the list, once every name in it has its imports there.
  complete :
      (files names : List Name)
      → ((x : Name) → contains x files ≡ true → contains x names ≡ true)
      → ((x y : Name)
          → contains x names ≡ true
          → contains y (get m x).imports ≡ true
          → contains y names ≡ true)
      → (x : Name) → Imports m files x
      → contains x names ≡ true
  complete files names covers closed x (direct e) = covers x e
  complete files names covers closed x (through {y = y} i e) =
      closed y x (complete files names covers closed y i) e

  -- For every manifest, also one whose chunks import each other in a circle, the walk from a name ends
  -- and gives the chunks of a list of names in which no name is twice, and in which a name is exactly
  -- when the chunk of the given name imports it, directly or through other chunks.
  pub imported_chunks-Imports :
      (name : Name)
      → (names : List Name) × ((imported_chunks m name ≡ some (map (get m) names))
          × (IsNodup names
              × ((x : Name) → (contains x names ≡ true) ↔ Imports m (get m name).imports x)))
  unfolding imported_chunks contains
  imported_chunks-Imports name =
      let files = (get m name).imports in
      let short = unseen-length (all_imports m) [] in
      let (r, (e, o)) =
        get_imported_chunks-Descends (length (all_imports m) + 1) files []
          (imports-all_imports m name) (omega (arith, short)) in
      let same : (x : Name) → contains x r.1 ≡ contains x o.names = λ x. o.added x in
      (
        o.names,
        (
          simp (imported_chunks, e, o.chunks),
          (
            o.nodup,
            λ x. (
              o.sound x,
              complete files o.names (λ y h. sym (same y) ∙ o.covers y h)
                  (λ y z h i. sym (same z) ∙ o.closed y z h i) x,
            ),
          ),
        ),
      )
