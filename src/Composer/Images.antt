-- ===== src/Composer/Images.antt =====
-- About the images of a prompt in `PromptComposer` of frontend/src/features/sessions/SessionPane.tsx.
use acp_webui.Common.{
  String, ◌≤◌, true, not, Option, none, some, List, [], ◌∷◌, All, All-append, ltb, ◌≡◌, arith,
  Bool-cases, inl, inr,
}
use acp_webui.Common.Sets.{has}
use acp_webui.Composer.Draft.{ReadAll, add_image_files, add_read, join_read, read_all, unsupported}
use acp_webui.Composer.Files.{
  File, ImageAttachment, Read, loaded_attachment, max_image_bytes, read_image_attachment,
  supported_image_mime_types,
}
use acp_webui.Composer.Leaves.{pick}
use acp_webui.Composer.State.{Composer, Submitted}

-- An image that a prompt may have.
abbrev pub Accepted : ImageAttachment → Type 0
Accepted attachment =
    (has attachment.mime_type supported_image_mime_types ≡ true)
    × (attachment.size ≤ max_image_bytes)

abbrev AcceptedIn : Submitted → Type 0
AcceptedIn s = All Accepted s.attachments

-- The images of the prompt, and of those that are sent.
abbrev pub HasAcceptedImages : Composer → Type 0
HasAcceptedImages c = All Accepted c.attachments × All AcceptedIn c.submitted

abbrev AcceptedRead : Read → Type 0
AcceptedRead (Read.loaded attachment) = Accepted attachment
AcceptedRead (Read.rejected message) = Unit

abbrev AcceptedReads : ReadAll → Type 0
AcceptedReads (ReadAll.all_loaded attachments) = All Accepted attachments
AcceptedReads (ReadAll.one_rejected message) = Unit

loaded_attachment-Accepted :
    (file : File) (result : Option String)
    → has file.type supported_image_mime_types ≡ true
    → file.size ≤ max_image_bytes
    → AcceptedRead (loaded_attachment file result)
unfolding loaded_attachment
loaded_attachment-Accepted file none h k = tt
loaded_attachment-Accepted file (some result) h k = (h, k)

read_image_attachment-Accepted : (file : File) → AcceptedRead (read_image_attachment file)
unfolding read_image_attachment
read_image_attachment-Accepted file = elim (Bool-cases (has file.type supported_image_mime_types)) [
  | inr other ↦ rw other tt
  | inl image ↦ elim (Bool-cases (ltb max_image_bytes file.size)) [
    | inl large ↦ rw (image, large) tt
    | inr small ↦
        rw (image, small) (loaded_attachment-Accepted file file.result image (ground arith))
  ]
]

join_read-Accepted :
    (read : Read) (reads : ReadAll)
    → AcceptedRead read
    → AcceptedReads reads
    → AcceptedReads (join_read read reads)
join_read-Accepted (Read.loaded attachment) (ReadAll.all_loaded attachments) h k = (h, k)
join_read-Accepted (Read.loaded attachment) (ReadAll.one_rejected message) h k = tt
join_read-Accepted (Read.rejected message) (ReadAll.all_loaded attachments) h k = tt
join_read-Accepted (Read.rejected message) (ReadAll.one_rejected later) h k = tt

read_all-Accepted : (files : List File) → AcceptedReads (read_all files)
unfolding read_all
read_all-Accepted [] = tt
read_all-Accepted (file ∷ files) =
    join_read-Accepted (read_image_attachment file) (read_all files)
      (read_image_attachment-Accepted file) (read_all-Accepted files)

add_read-HasAcceptedImages :
    (reads : ReadAll) (c : Composer)
    → AcceptedReads reads
    → HasAcceptedImages c
    → HasAcceptedImages (add_read reads c)
unfolding add_read
add_read-HasAcceptedImages (ReadAll.all_loaded next) c k (h, sent) =
    (All-append Accepted c.attachments next h k, sent)
add_read-HasAcceptedImages (ReadAll.one_rejected message) c k h = h

-- Files that are added keep the images of the prompt, and of those that are sent, of a type that is
-- supported and of at most 5 MB.
pub add_image_files-HasAcceptedImages :
    (files : List File) (c : Composer)
    → HasAcceptedImages c
    → HasAcceptedImages (add_image_files files c)
unfolding add_image_files
add_image_files-HasAcceptedImages [] c h = h
add_image_files-HasAcceptedImages (file ∷ files) c h =
    pick HasAcceptedImages (not c.props.image_prompt_supported)
      (record c { attachment_error = unsupported c }) (add_read (read_all (file ∷ files)) c) h
      (add_read-HasAcceptedImages (read_all (file ∷ files)) c (read_all-Accepted (file ∷ files)) h)
