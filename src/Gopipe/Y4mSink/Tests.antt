-- ===== src/Gopipe/Y4mSink/Tests.antt =====
-- A concrete run of gopipe/y4m_sink.go.
use mrtp.Prelude.{◌≡◌, refl, List, [], ◌∷◌, ◌++◌, Bool, true}
use mrtp.Prelude.Int.{pos}
use mrtp.Gopipe.Attributes.{
  Attributes, no_attributes, set_attribute, width, height, chroma_subsampling, int, ratio, ratio440,
  ratio420,
}
use mrtp.Gopipe.Spacer.{Sent}
use mrtp.Gopipe.Y4mSink.{c420jpeg, Line, header, frame_line, frame_data, fresh_sink}
use mrtp.Gopipe.Y4mSink.Files.{writes, writes-file_of}

abbrev put_last : Line → List Line → List Line × Bool
put_last l w = (w ++ l ∷ [], true)

abbrev sized : Attributes
sized = set_attribute (set_attribute no_attributes width (int (pos 2))) height (int (pos 1))

-- no attributes, an unsupported ratio, and a frame that is saved
abbrev three_writes : List Sent
three_writes =
    (1 ∷ [], no_attributes)
    ∷ (2 ∷ [], set_attribute sized chroma_subsampling (ratio ratio440))
    ∷ (3 ∷ [], set_attribute sized chroma_subsampling (ratio ratio420))
    ∷ []

writes-file_of_example :
    (writes put_last three_writes (fresh_sink (pos 30) (pos 1), [])).1
    ≡ header (pos 2) (pos 1) (pos 30) (pos 1) c420jpeg ∷ frame_line ∷ frame_data (3 ∷ []) ∷ []
writes-file_of_example =
    writes-file_of put_last (λ w. w) (pos 30) (pos 1) three_writes [] (λ l w. (refl, refl)) refl
