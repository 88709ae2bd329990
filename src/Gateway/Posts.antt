-- ===== src/Gateway/Posts.antt =====
-- What the gateway posts for one item: `post` of link/gateway.go. The limiter's waits and the chat's
-- answers are not here: the code makes these posts in this order and stops at the first that fails.
use khala_network.Common.{
  ℕ, zero, suc, ◌≤◌, List, [], ◌∷◌, ◌++◌, length, if◌then◌else◌, Bool, true, ltb, leb, ◌==◌, ◌&&◌,
  Str, lit,
}
use khala_network.Gateway.Split.{Runes, utf16_len, split_message}
use khala_network.Gateway.Letters.{letters}

abbrev pub text_limit : ℕ
text_limit = 4096

abbrev pub caption_runes : ℕ
caption_runes = 300

pub record OutItem : Type 0 where
  pub thread : ℕ
  pub text : Runes
  pub reply_to : ℕ
  pub doc_name : Str
  pub ack_id : Str

pub data Post : Type 0 where
  message : ℕ → Runes → ℕ → Post
  document : ℕ → Str → Runes → Runes → Post

-- `unicode.IsSpace`.
abbrev pub is_space : ℕ → Bool
is_space r =
    if leb 9 r && leb r 13
    then true
    else if leb 8192 r && leb r 8202
    then true
    else if r == 32
    then true
    else if r == 133
    then true
    else if r == 160
    then true
    else if r == 5760
    then true
    else if r == 8232
    then true
    else if r == 8233
    then true
    else if r == 8239
    then true
    else if r == 8287
    then true
    else r == 12288

-- `strings.TrimSpace(text) == ""`.
abbrev pub is_blank : Runes → Bool
is_blank [] = true
is_blank (r ∷ text) = is_space r && is_blank text

abbrev pub take_runes : ℕ → Runes → Runes
take_runes n [] = []
take_runes zero (r ∷ text) = []
take_runes (suc n) (r ∷ text) = r ∷ take_runes n text

-- "(empty message)"
abbrev pub empty_message : Runes
empty_message =
    40 ∷ 101 ∷ 109 ∷ 112 ∷ 116 ∷ 121 ∷ 32 ∷ 109 ∷ 101 ∷ 115 ∷ 115 ∷ 97 ∷ 103 ∷ 101 ∷ 41 ∷ []

abbrev pub body : OutItem → Runes
body item = if is_blank (OutItem.text item) then empty_message else OutItem.text item

abbrev pub messages : ℕ → ℕ → List Runes → List Post
messages thread reply_to [] = []
messages thread reply_to (chunk ∷ chunks) = message thread chunk reply_to ∷ messages thread 0 chunks

abbrev pub as_document : OutItem → Runes → Post
as_document item text =
    document (OutItem.thread item)
      (elim (OutItem.doc_name item) [ [] ↦ lit "message.md" | _ ↦ OutItem.doc_name item ]) text
      (take_runes caption_runes text)

-- More chunks than the configured limit are sent as one document.
abbrev pub in_chunks : ℕ → OutItem → Runes → List Runes → List Post
in_chunks chunk_limit item text chunks =
    if ltb chunk_limit (length chunks)
    then as_document item text ∷ []
    else messages (OutItem.thread item) (OutItem.reply_to item) chunks

abbrev pub posts_of : ℕ → OutItem → Runes → List Post
posts_of chunk_limit item text =
    if leb (utf16_len text) text_limit
    then message (OutItem.thread item) text (OutItem.reply_to item) ∷ []
    else in_chunks chunk_limit item text (split_message text text_limit)

unfoldable pub posts : ℕ → OutItem → List Post
posts chunk_limit item = posts_of chunk_limit item (body item)

-- No longer than the chat allows: a message of 4096 UTF-16 units, a caption of 300 runes. That a message
-- must not be empty is not part of it.
abbrev pub IsShort : Post → Type 0
IsShort (message thread text reply_to) = utf16_len text ≤ 4096
IsShort (document thread name text caption) = length caption ≤ 300

-- The runes other than newlines that posts bring to the chat, a document's own text among them.
abbrev pub posted : List Post → Runes
posted [] = []
posted (message thread text reply_to ∷ ps) = letters text ++ posted ps
posted (document thread name text caption ∷ ps) = letters text ++ posted ps
