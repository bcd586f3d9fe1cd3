-- ===== src/Gstreamer/RtpBin/Growth.antt =====
-- What the operations of gstreamer/rtpbin.go never take back.
use mrtp.Prelude.{
  ℕ, ◌≡◌, ◌≢◌, refl, ◌∙◌, ap, ◌⊎◌, inl, inr, ◌==◌, List, [], ◌∷◌, ◌++◌, Bool, Option, none, some,
  length, Bool-cases, arith,
}
use mrtp.Gstreamer.RtpBin.{
  new_element, created, Element, Kind, GstCall, Outcome, ok, error, panic, SinkBin, RtpBin, Op,
  ◌>>◌, set_at, call_or, call, with_new, keep_funnel,
}

-- That a call is in the list.
abbrev pub Has : GstCall → List GstCall → Type 0
Has c [] = ⊥
Has c (d ∷ ds) = (c ≡ d) ⊎ Has c ds

pub Has-left : (c : GstCall) (xs ys : List GstCall) → Has c xs → Has c (xs ++ ys)
Has-left c [] ys h = absurd h
Has-left c (x ∷ xs) ys (inl e) = inl e
Has-left c (x ∷ xs) ys (inr h) = inr (Has-left c xs ys h)

pub Has-last : (c : GstCall) (xs : List GstCall) → Has c (xs ++ c ∷ [])
Has-last c [] = inl refl
Has-last c (x ∷ xs) = inr (Has-last c xs)

-- Calls stay recorded, and what a map has stays there.
pub record Grows (s t : RtpBin) : Type 0 where
  pub calls : (c : GstCall) → Has c s.calls → Has c t.calls
  pub transports : (id : ℕ) (e : Element) → s.transports id ≡ some e → t.transports id ≡ some e
  pub streams : (id : ℕ) (e : SinkBin) → s.streams id ≡ some e → t.streams id ≡ some e
  pub funnels : (id : ℕ) (e : Element) → s.rtcp_funnels id ≡ some e → t.rtcp_funnels id ≡ some e
  pub scream : t.scream_tx ≡ s.scream_tx

pub Grows-refl : (s : RtpBin) → Grows s s
Grows-refl s = record {
  calls = λ c h. h;
  transports = λ id e h. h;
  streams = λ id e h. h;
  funnels = λ id e h. h;
  scream = refl;
}

pub Grows-trans : (s t u : RtpBin) → Grows s t → Grows t u → Grows s u
Grows-trans s t u g h = record {
  calls = λ c x. h.calls c (g.calls c x);
  transports = λ id e x. h.transports id e (g.transports id e x);
  streams = λ id e x. h.streams id e (g.streams id e x);
  funnels = λ id e x. h.funnels id e (g.funnels id e x);
  scream = h.scream ∙ g.scream;
}

pub record IsGrowing (f : Op) : Type 0 where
  pub grows : (s : RtpBin) → Grows s (f s).0

pub Outcome-cases : (r : Outcome) → (r ≡ ok) ⊎ ((r ≡ error) ⊎ (r ≡ panic))
Outcome-cases ok = inl refl
Outcome-cases error = inr (inl refl)
Outcome-cases panic = inr (inr refl)

-- The second call is made exactly when the first succeeds.
pub then-cases :
    (f g : Op) (s : RtpBin)
    → (((f s).1 ≡ ok) × ((f >> g) s ≡ g (f s).0))
      ⊎ ((((f >> g) s).0 ≡ (f s).0) × (((f >> g) s).1 ≢ ok))
unfolding ◌>>◌
then-cases f g s = elim (Outcome-cases (f s).1) [
  | inl e ↦ inl (e, simp (◌>>◌, e))
  | inr (inl e) ↦ inr (simp (◌>>◌, e), λ h. cc (simp (◌>>◌, e) at h))
  | inr (inr e) ↦ inr (simp (◌>>◌, e), λ h. cc (simp (◌>>◌, e) at h))
]

pub then-IsGrowing : (f g : Op) → IsGrowing f → IsGrowing g → IsGrowing (f >> g)
then-IsGrowing f g hf hg = record {
  grows = λ s. elim (then-cases f g s) [
    | inl (e, same) ↦ rw same (Grows-trans s (f s).0 (g (f s).0).0 (hf.grows s) (hg.grows (f s).0))
    | inr (same, e) ↦ rw same (hf.grows s)
  ];
}

module _ (works : List GstCall → GstCall → Bool) where
  call_or-Grows : (r : Outcome) (c : GstCall) (s : RtpBin) → Grows s (call_or works r c s).0
  unfolding call_or
  call_or-Grows r c s = elim (Bool-cases (works s.calls c)) [
    | inl e ↦
        let added : RtpBin = record s { calls = s.calls ++ c ∷ [] } in
        let grows : Grows s added = record {
          calls = λ d h. Has-left d s.calls (c ∷ []) h;
          transports = λ id x h. h;
          streams = λ id x h. h;
          funnels = λ id x h. h;
          scream = refl;
        } in
        rw e grows
    | inr e ↦ rw e (Grows-refl s)
  ]

  pub call_or-IsGrowing : (r : Outcome) (c : GstCall) → IsGrowing (call_or works r c)
  call_or-IsGrowing r c = record { grows = call_or-Grows r c }

  pub with_new-IsGrowing :
      (k : Kind) (next : Element → Op)
      → ((e : Element) → IsGrowing (next e))
      → IsGrowing (with_new works k next)
  unfolding with_new
  with_new-IsGrowing k next h = record {
    grows = λ s.
        let e = created k (length s.calls) in
        (then-IsGrowing (call works (new_element e)) (next e)
            (call_or-IsGrowing error (new_element e)) (h e)).grows
          s;
  }

  call_or-funnels :
      (r : Outcome) (c : GstCall) (s : RtpBin)
      → (call_or works r c s).0.rtcp_funnels ≡ s.rtcp_funnels
  unfolding call_or
  call_or-funnels r c s = ground arith

  pub set_at-keeps :
      {A : Type 0} (m : ℕ → Option A) (id : ℕ) (a : A)
      → m id ≡ none
      → (n : ℕ) (x : A) → m n ≡ some x
      → set_at m id a n ≡ some x
  set_at-keeps m id a free n x h = elim (Bool-cases (n == id)) [
    | inl e ↦ let same : n ≡ id = ground (arith, e) in absurd (cc (same, free, h))
    | inr e ↦ simp (set_at, e) h
  ]

  keep_funnel-Grows :
      (id : ℕ) (f : Element) (s : RtpBin)
      → s.rtcp_funnels id ≡ none
      → Grows s (keep_funnel id f s).0
  keep_funnel-Grows id f s free = record {
    calls = λ c h. h;
    transports = λ n x h. h;
    streams = λ n x h. h;
    funnels = set_at-keeps s.rtcp_funnels id f free;
    scream = refl;
  }

  pub new_funnel-Grows :
      (id : ℕ) (k : Kind) (rest : Element → Op) (s : RtpBin)
      → ((f : Element) → IsGrowing (rest f))
      → s.rtcp_funnels id ≡ none
      → Grows s (with_new works k (λ f. keep_funnel id f >> rest f) s).0
  unfolding with_new ◌>>◌
  new_funnel-Grows id k rest s h free =
      let f = created k (length s.calls) in
      let t = (call works (new_element f) s).0 in
      let still : t.rtcp_funnels id ≡ none =
        ap (λ m. m id) (call_or-funnels error (new_element f) s) ∙ free in
      let first = call_or-Grows error (new_element f) s in
      let kept = (keep_funnel id f t).0 in
      elim (then-cases (call works (new_element f)) (keep_funnel id f >> rest f) s) [
        | inl (e, same) ↦ rw same (
            Grows-trans s t (rest f kept).0 first (
              Grows-trans t kept (rest f kept).0 (keep_funnel-Grows id f t still)
                ((h f).grows kept)))
        | inr (same, e) ↦ rw same first
      ]
