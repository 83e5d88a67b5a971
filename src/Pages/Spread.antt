-- ===== src/Pages/Spread.antt =====
-- About `renderableMessageBlocks` of frontend/src/features/sessions/sessionPaneHelpers.ts.
use acp_webui.Common.{String, Option, List, [], ◌∷◌, ◌++◌, ◌<>◌, ◌≡◌, refl, sym, ap, ◌∙◌}
use Prim.Native.Char.{Char}
use mathlib.Core.List.{append-nil, append_assoc}
use text.Mathlib.TextLemmas.{nil-append, cons-append}
use acp_webui.Types.{MessageContentBlock}
use acp_webui.Pages.Messages.{merge_block, merge_blocks, message_blocks, renderable_message_blocks}

-- What a reader sees of a message, piece by piece.
pub data Piece : Type 0 where
  character : Char → Piece
  image : MessageContentBlock → Piece

unfoldable pub spread_text : String → List Piece
spread_text String.[] = []
spread_text (String.◌∷◌ c s) = Piece.character c ∷ spread_text s

abbrev pub spread_block : MessageContentBlock → List Piece
spread_block (MessageContentBlock.text s) = spread_text s
spread_block (MessageContentBlock.image mime_type image_data uri name) =
    Piece.image (MessageContentBlock.image mime_type image_data uri name) ∷ []

abbrev pub spread : List MessageContentBlock → List Piece
spread [] = []
spread (block ∷ blocks) = spread_block block ++ spread blocks

-- No text stands beside a text.
abbrev pub IsApart : List MessageContentBlock → Type 0
IsApart [] = Unit
IsApart (MessageContentBlock.text s ∷ MessageContentBlock.text t ∷ blocks) = ⊥
IsApart (block ∷ blocks) = IsApart blocks

spread_text-append : (s t : String) → spread_text (s <> t) ≡ spread_text s ++ spread_text t
unfolding spread_text
spread_text-append String.[] t = rw (nil-append t) refl
spread_text-append (String.◌∷◌ c s) t =
    rw (cons-append c s t) (ap (λ pieces. Piece.character c ∷ pieces) (spread_text-append s t))

spread-merge_block :
    (merged : List MessageContentBlock) (block : MessageContentBlock)
    → spread (merge_block merged block) ≡ spread merged ++ spread_block block
unfolding merge_block
spread-merge_block [] block = append-nil (spread_block block)
spread-merge_block (MessageContentBlock.text s ∷ []) (MessageContentBlock.text t) =
    append-nil (spread_text (s <> t))
    ∙ spread_text-append s t
    ∙ ap (λ pieces. pieces ++ spread_text t) (sym (append-nil (spread_text s)))
spread-merge_block (MessageContentBlock.text s ∷ []) (MessageContentBlock.image m d u n) =
    ap (λ pieces. pieces ++ spread_block (MessageContentBlock.image m d u n))
      (sym (append-nil (spread_text s)))
spread-merge_block (MessageContentBlock.image m d u n ∷ []) block =
    ap (λ pieces. Piece.image (MessageContentBlock.image m d u n) ∷ pieces)
      (append-nil (spread_block block))
spread-merge_block (first ∷ second ∷ merged) block =
    ap (λ pieces. spread_block first ++ pieces) (spread-merge_block (second ∷ merged) block)
    ∙ sym (append_assoc (spread_block first) (spread (second ∷ merged)) (spread_block block))

spread-merge_blocks :
    (blocks merged : List MessageContentBlock)
    → spread (merge_blocks blocks merged) ≡ spread merged ++ spread blocks
unfolding merge_blocks
spread-merge_blocks [] merged = sym (append-nil (spread merged))
spread-merge_blocks (block ∷ blocks) merged =
    spread-merge_blocks blocks (merge_block merged block)
    ∙ ap (λ pieces. pieces ++ spread blocks) (spread-merge_block merged block)
    ∙ append_assoc (spread merged) (spread_block block) (spread blocks)

merge_block-IsApart :
    (merged : List MessageContentBlock) (block : MessageContentBlock)
    → IsApart merged
    → IsApart (merge_block merged block)
unfolding merge_block
merge_block-IsApart [] (MessageContentBlock.text t) h = tt
merge_block-IsApart [] (MessageContentBlock.image m d u n) h = tt
merge_block-IsApart (MessageContentBlock.text s ∷ []) (MessageContentBlock.text t) h = tt
merge_block-IsApart (MessageContentBlock.text s ∷ []) (MessageContentBlock.image m d u n) h = tt
merge_block-IsApart (MessageContentBlock.image m d u n ∷ []) (MessageContentBlock.text t) h = tt
merge_block-IsApart (MessageContentBlock.image m d u n ∷ []) (MessageContentBlock.image m' d' u' n')
      h =
    tt
merge_block-IsApart (MessageContentBlock.image m d u n ∷ second ∷ merged) block h =
    merge_block-IsApart (second ∷ merged) block h
merge_block-IsApart (MessageContentBlock.text s ∷ MessageContentBlock.text t ∷ merged) block h =
    elim h [ ]
merge_block-IsApart (MessageContentBlock.text s ∷ MessageContentBlock.image m d u n ∷ [])
      (MessageContentBlock.text t) h =
    tt
merge_block-IsApart (MessageContentBlock.text s ∷ MessageContentBlock.image m d u n ∷ [])
      (MessageContentBlock.image m' d' u' n') h =
    tt
merge_block-IsApart
      (MessageContentBlock.text s ∷ MessageContentBlock.image m d u n ∷ third ∷ merged) block h =
    merge_block-IsApart (third ∷ merged) block h

merge_blocks-IsApart :
    (blocks merged : List MessageContentBlock)
    → IsApart merged
    → IsApart (merge_blocks blocks merged)
unfolding merge_blocks
merge_blocks-IsApart [] merged h = h
merge_blocks-IsApart (block ∷ blocks) merged h =
    merge_blocks-IsApart blocks (merge_block merged block) (merge_block-IsApart merged block h)

-- The blocks of a message show the same characters and images in the same order as its content
-- does, and no text stands beside a text.
pub renderable_message_blocks-IsApart :
    (content : String) (content_blocks : Option (List MessageContentBlock))
    → (spread (renderable_message_blocks content content_blocks)
        ≡ spread (message_blocks content content_blocks))
      × IsApart (renderable_message_blocks content content_blocks)
unfolding renderable_message_blocks
renderable_message_blocks-IsApart content content_blocks = (
  spread-merge_blocks (message_blocks content content_blocks) [],
  merge_blocks-IsApart (message_blocks content content_blocks) [] tt,
)
