-- ===== src/Conduit/Inbox.antt =====
-- The unread letters of an identity: `pendingMessage`, `notifiableMessages`, `messageCounts`,
-- `notificationPriority` and `queueDigest` of link/conduit.go.
use khala_network.Common.{
  ℕ, ◌+◌, Str, lit, List, [], ◌∷◌, ◌++◌, filter, if◌then◌else◌, Bool, true, not, ◌||◌, ◌&&◌,
}
use khala_network.Text.Strings.{str_lt}
use khala_network.Wire.Digest.{hex_encode}

pub record PendingMessage : Type 0 where
  pub id : Str
  pub kind : Str
  pub from : Str
  pub subject : Str
  pub alert : Bool
  pub urgent : Bool
  pub later : Bool

abbrev pub is_notifiable : PendingMessage → Bool
is_notifiable m = not m.alert || m.urgent

unfoldable pub notifiable_messages : List PendingMessage → List PendingMessage
notifiable_messages messages = filter is_notifiable messages

-- `sort.Strings`.
unfoldable pub insert_sorted : Str → List Str → List Str
insert_sorted s [] = s ∷ []
insert_sorted s (t ∷ ts) =
    let rest = insert_sorted s ts in if str_lt t s then t ∷ rest else s ∷ (t ∷ ts)

unfoldable pub sort_strings : List Str → List Str
sort_strings [] = []
sort_strings (s ∷ ts) = insert_sorted s (sort_strings ts)

abbrev pub ended_ids : List Str → Str
ended_ids [] = []
ended_ids (id ∷ ids) = id ++ (0 ∷ ended_ids ids)

abbrev pub ids_of : List PendingMessage → List Str
ids_of [] = []
ids_of (m ∷ ms) = m.id ∷ ids_of ms

abbrev pub digest_of_ids : (Str → Str) → List Str → Str
digest_of_ids sha256 [] = lit "-"
digest_of_ids sha256 (id ∷ ids) = hex_encode (sha256 (ended_ids (id ∷ ids)))

unfoldable pub queue_digest : (Str → Str) → List PendingMessage → Str
unfolding notifiable_messages sort_strings insert_sorted
queue_digest sha256 messages =
    digest_of_ids sha256 (sort_strings (ids_of (notifiable_messages messages)))

pub record Counts : Type 0 where
  pub mail : ℕ
  pub alerts : ℕ
  pub urgent : ℕ

unfoldable pub message_counts : List PendingMessage → Counts
message_counts [] = record { mail = 0; alerts = 0; urgent = 0 }
message_counts (m ∷ ms) =
    let c = message_counts ms in
    if not m.alert
    then record c { mail = c.mail + 1 }
    else if m.urgent
    then record c { alerts = c.alerts + 1; urgent = c.urgent + 1 }
    else record c { alerts = c.alerts + 1 }

abbrev all_later : List PendingMessage → Bool
all_later [] = true
all_later (m ∷ ms) = m.later && all_later ms

-- `notificationPriority`, of the messages that are notified.
abbrev priority_of : List PendingMessage → Str
priority_of [] = lit "next"
priority_of (m ∷ ms) = if all_later (m ∷ ms) then lit "later" else lit "next"

unfoldable pub notification_priority : List PendingMessage → Str
unfolding notifiable_messages
notification_priority messages = priority_of (notifiable_messages messages)
