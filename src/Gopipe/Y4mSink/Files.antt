-- ===== src/Gopipe/Y4mSink/Files.antt =====
-- The file that writes to the sink of gopipe/y4m_sink.go make.
use mrtp.Prelude.{
  ℕ, ◌≡◌, refl, subst, sym, ◌∙◌, List, [], ◌∷◌, ◌++◌, append_assoc, append-nil, Bool, true, false,
  Option-cases, none, some, inl, inr,
}
use mrtp.Prelude.Int.{ℤ}
use mrtp.Gopipe.Attributes.{Attributes, Error, Result-cases, ok, error, panic}
use mrtp.Gopipe.Spacer.{Sent}
use mrtp.Gopipe.Y4mSink.{
  ChromaFormat, Line, header, frame_line, frame_data, Y4mSink, fresh_sink, chroma_format,
  save_frame, save_header, save_data, FrameInfo, frame_info, write_y4m,
}
use mrtp.Gopipe.Y4mSink.Layout.{
  frames_of, file_of, picture_ok, picture_error, picture_panic, format_of-chroma_format,
}

module _ {W : Type 0} (put : Line → W → W × Bool) where
  -- The writes one after the other, whatever each returns.
  abbrev pub writes : List Sent → Y4mSink × W → Y4mSink × W
  writes [] s = s
  writes ((b, a) ∷ fs) s = writes fs (write_y4m put b a s).0

  module _ (lines : W → List Line)
      (puts : (l : Line) (w : W)
        → ((put l w).1 ≡ true) × (lines (put l w).0 ≡ lines w ++ l ∷ [])) where
    save_data-lines :
        (b : List ℕ) (w : W)
        → (let x = save_data put b w in
            (x.1 ≡ ok tt) × (lines x.0 ≡ lines w ++ frame_line ∷ frame_data b ∷ []))
    save_data-lines b w =
        let (p, q) = puts frame_line w in
        let (p', q') = puts (frame_data b) (put frame_line w).0 in
        rw (save_data, p, p')
          (refl, q' ∙ rw q (append_assoc (lines w) (frame_line ∷ []) (frame_data b ∷ [])))

    write_y4m-lines :
        (b : List ℕ) (a : Attributes) (s : Y4mSink) (w : W) (i : FrameInfo)
        → frame_info a ≡ ok i
        → s.header_written ≡ true
        → (let x = write_y4m put b a (s, w) in
            (x.0.0 ≡ s) × (lines x.0.1 ≡ lines w ++ frame_line ∷ frame_data b ∷ []))
    unfolding write_y4m save_frame
    write_y4m-lines b a s w i e h =
        simp (write_y4m, e, save_frame, h) (refl, (save_data-lines b w).1)

    write_y4m-first :
        (b : List ℕ) (a : Attributes) (s : Y4mSink) (w : W) (i : FrameInfo) (c : ChromaFormat)
        → frame_info a ≡ ok i
        → s.header_written ≡ false
        → chroma_format i.subsample_ratio ≡ some c
        → (let x = write_y4m put b a (s, w) in
            (x.0.0 ≡ record s { header_written = true })
            × (lines x.0.1
                ≡ lines w
                  ++ header i.width i.height s.fps_num s.fps_den c
                    ∷ frame_line
                    ∷ frame_data b
                    ∷ []))
    unfolding write_y4m save_frame
    write_y4m-first b a s w i c e h k =
        let l = header i.width i.height s.fps_num s.fps_den c in
        let (p, q) = puts l w in
        simp (write_y4m, k, e, save_frame, save_header, h, p)
          (
            refl,
            (save_data-lines b (put l w).0).1
                ∙ rw q (append_assoc (lines w) (l ∷ []) (frame_line ∷ frame_data b ∷ [])),
          )

    write_y4m-unsupported :
        (b : List ℕ) (a : Attributes) (s : Y4mSink) (w : W) (i : FrameInfo)
        → frame_info a ≡ ok i
        → s.header_written ≡ false
        → chroma_format i.subsample_ratio ≡ none
        → (write_y4m put b a (s, w)).0 ≡ (s, w)
    unfolding write_y4m save_frame
    write_y4m-unsupported b a s w i e h k = simp (write_y4m, k, e, save_frame, save_header, h)

    write_y4m-error :
        (b : List ℕ) (a : Attributes) (s : Y4mSink) (w : W) (e : Error)
        → frame_info a ≡ error e
        → (write_y4m put b a (s, w)).0 ≡ (s, w)
    unfolding write_y4m
    write_y4m-error b a s w e h = simp (write_y4m, h)

    write_y4m-panic :
        (b : List ℕ) (a : Attributes) (s : Y4mSink) (w : W)
        → frame_info a ≡ panic
        → (write_y4m put b a (s, w)).0 ≡ (s, w)
    unfolding write_y4m
    write_y4m-panic b a s w h = simp (write_y4m, h)

    writes-after :
        (fs : List Sent) (s : Y4mSink) (w : W)
        → s.header_written ≡ true
        → lines (writes fs (s, w)).1 ≡ lines w ++ frames_of fs
    writes-after [] s w h = sym (append-nil (lines w))
    writes-after ((b, a) ∷ fs) s w h = elim (Result-cases (frame_info a)) [
      | inl (i, e) ↦
          let (p, q) = write_y4m-lines b a s w i e h in
          let w' = (write_y4m put b a (s, w)).0.1 in
          let rest = writes-after fs s w' h in
          simp (frames_of, picture_ok a i e)
            (subst
              (λ t.
                lines (writes fs (t, w')).1 ≡ lines w ++ frame_line ∷ frame_data b ∷ frames_of fs)
              (sym p)
              (rest
                ∙ rw q (append_assoc (lines w) (frame_line ∷ frame_data b ∷ []) (frames_of fs))))
      | inr (inl (x, e)) ↦
          simp (writes, frames_of, picture_error a x e, write_y4m-error b a s w x e)
            (writes-after fs s w h)
      | inr (inr e) ↦
          simp (writes, frames_of, picture_panic a e, write_y4m-panic b a s w e)
            (writes-after fs s w h)
    ]

    writes-file :
        (fs : List Sent) (s : Y4mSink) (w : W)
        → s.header_written ≡ false
        → lines (writes fs (s, w)).1 ≡ lines w ++ file_of s.fps_num s.fps_den fs
    writes-file [] s w h = sym (append-nil (lines w))
    writes-file ((b, a) ∷ fs) s w h = elim (Result-cases (frame_info a)) [
      | inl (i, e) ↦ elim (Option-cases (chroma_format i.subsample_ratio)) [
        | inl k ↦
            simp
              (
                writes,
                file_of,
                picture_ok a i e,
                format_of-chroma_format i.subsample_ratio,
                k,
                write_y4m-unsupported b a s w i e h k,
              )
              (writes-file fs s w h)
        | inr (c, k) ↦
            let (p, q) = write_y4m-first b a s w i c e h k in
            let w' = (write_y4m put b a (s, w)).0.1 in
            let l = header i.width i.height s.fps_num s.fps_den c in
            let rest = writes-after fs (record s { header_written = true }) w' refl in
            simp (file_of, picture_ok a i e, format_of-chroma_format i.subsample_ratio, k)
              (subst
                (λ t.
                  lines (writes fs (t, w')).1
                  ≡ lines w ++ l ∷ frame_line ∷ frame_data b ∷ frames_of fs)
                (sym p)
                (rest
                  ∙ rw q
                      (append_assoc (lines w) (l ∷ frame_line ∷ frame_data b ∷ []) (frames_of fs))))
      ]
      | inr (inl (x, e)) ↦
          simp (writes, file_of, picture_error a x e, write_y4m-error b a s w x e)
            (writes-file fs s w h)
      | inr (inr e) ↦
          simp (writes, file_of, picture_panic a e, write_y4m-panic b a s w e)
            (writes-file fs s w h)
    ]

-- For a file whose writes do not fail, after any sequence of writes of frames to a new sink: the file has
-- nothing before the first frame whose three attributes are there and whose subsampling is supported; it
-- then has one header with the size of that frame, the format that shares chroma as its ratio does, and the sink's frame rate, and that frame
-- and each later one that has the attributes, in order, each as a frame line and its data.
pub writes-file_of :
    {W : Type 0} (put : Line → W → W × Bool) (lines : W → List Line) (fps_num fps_den : ℤ)
    (fs : List Sent) (w : W)
    → ((l : Line) (w : W) → ((put l w).1 ≡ true) × (lines (put l w).0 ≡ lines w ++ l ∷ []))
    → lines w ≡ []
    → lines (writes put fs (fresh_sink fps_num fps_den, w)).1 ≡ file_of fps_num fps_den fs
writes-file_of put lines fps_num fps_den fs w puts empty =
    writes-file put lines puts fs (fresh_sink fps_num fps_den) w refl ∙ rw empty refl
