-- ===== src/Web/Vite/Walk.antt =====
-- The names that a walk of internal/web/vite.go has seen.
use mrtp.Prelude.{
  ℕ, ◌+◌, ◌≤◌, ◌<◌, ◌≡◌, refl, ◌==◌, List, [], ◌∷◌, ◌++◌, true, false, ◌||◌, inl, inr, length,
  contains, Bool-cases, if◌then◌else◌, arith,
}
use mrtp.Web.Vite.{Name, Manifest, get, all_imports}

pub contains-append :
    (x : ℕ) (xs ys : List ℕ) → contains x (xs ++ ys) ≡ (contains x xs || contains x ys)
unfolding contains
contains-append x [] ys = refl
contains-append x (z ∷ xs) ys = ground (arith, contains-append x xs ys)

-- How many entries of a list have not been seen.
unfoldable pub unseen : List Name → List Name → ℕ
unseen [] seen = 0
unseen (x ∷ xs) seen = (if contains x seen then 0 else 1) + unseen xs seen

pub unseen-length : (xs seen : List Name) → unseen xs seen ≤ length xs
unfolding unseen
unseen-length [] seen = omega arith
unseen-length (x ∷ xs) seen = ground (arith, unseen-length xs seen)

pub unseen-grows :
    (xs seen more : List Name)
    → ((x : Name) → contains x seen ≡ true → contains x more ≡ true)
    → unseen xs more ≤ unseen xs seen
unfolding unseen
unseen-grows [] seen more h = omega arith
unseen-grows (x ∷ xs) seen more h = ground (arith, h x, unseen-grows xs seen more h)

pub unseen-new :
    (xs seen : List Name) (f : Name)
    → contains f xs ≡ true
    → contains f seen ≡ false
    → unseen xs (f ∷ seen) < unseen xs seen
unfolding unseen contains
unseen-new [] seen f h new = absurd (cc (h))
unseen-new (x ∷ xs) seen f h new =
    let grows : unseen xs (f ∷ seen) ≤ unseen xs seen =
      unseen-grows xs seen (f ∷ seen) (λ y e. ground (arith, e)) in
    elim (Bool-cases (x == f)) [
      | inl e ↦
          let same : x ≡ f = ground (arith, e) in
          let seen_before : contains x seen ≡ false = rw same new in
          ground (arith, grows, seen_before, e)
      | inr e ↦
          let there : contains f xs ≡ true = ground (arith, e, h) in
          ground (arith, unseen-new xs seen f there new)
    ]

abbrev pub IsNodup : List Name → Type 0
IsNodup [] = Unit {0}
IsNodup (x ∷ xs) = (contains x xs ≡ false) × IsNodup xs

pub IsNodup-append :
    (xs ys : List Name)
    → IsNodup xs
    → IsNodup ys
    → ((x : Name) → contains x xs ≡ true → contains x ys ≡ false)
    → IsNodup (xs ++ ys)
unfolding contains
IsNodup-append [] ys h k apart = k
IsNodup-append (x ∷ xs) ys h k apart = (
  ground (arith, contains-append x xs ys, h.0, apart x),
  IsNodup-append xs ys h.1 k (λ y e. apart y (ground (arith, e))),
)

-- The names that are imported from a list of names, in any number of steps.
pub data Imports (m : Manifest) (files : List Name) : Name → Type 0 where
  direct : {x : Name} → contains x files ≡ true → Imports m files x
  through :
      {x y : Name} → Imports m files y → contains x (get m y).imports ≡ true → Imports m files x

pub Imports-weaken :
    (m : Manifest) (xs ys : List Name) (x : Name)
    → ((y : Name) → contains y xs ≡ true → Imports m ys y)
    → Imports m xs x
    → Imports m ys x
Imports-weaken m xs ys x h (direct e) = h x e
Imports-weaken m xs ys x h (through {y = y} i e) = through (Imports-weaken m xs ys y h i) e

pub imports-all_imports :
    (m : Manifest) (name x : Name)
    → contains x (get m name).imports ≡ true
    → contains x (all_imports m) ≡ true
unfolding get contains
imports-all_imports [] name x h = h
imports-all_imports ((key, c) ∷ m) name x h = elim (Bool-cases (key == name)) [
  | inl e ↦ ground (arith, contains-append x c.imports (all_imports m), e, h)
  | inr e ↦
      let there = imports-all_imports m name x (ground (arith, e, h)) in
      ground (arith, contains-append x c.imports (all_imports m), there)
]
