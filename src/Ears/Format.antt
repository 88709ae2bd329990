-- ===== src/Ears/Format.antt =====
-- `formatListenerSnapshot` of link/ears.go. Identities of the same safe name keep their order, which
-- sort.Slice leaves open.
use khala_network.Common.{
  ℕ, ◌+◌, ◌-◌, Str, lit, List, [], ◌∷◌, ◌++◌, length, Option, none, some, if◌then◌else◌, Bool,
  false, not, ◌&&◌, ltb, leb, ◌==◌, all,
}
use khala_network.Text.Strings.{str_lt}
use khala_network.Text.Numbers.{decimal}
use khala_network.Names.{valid_node}
use khala_network.Conduit.Inbox.{sort_strings}
use khala_network.Notices.{scan_lines}
use khala_network.Ears.Snapshot.{
  ListenerComponent, ListenerIdentity, ListenerSnapshot, listener_max_record_bytes,
  valid_listener_value, is_queue_digest, one_of, valid_enums, route_agrees, digest_or_dash,
}

abbrev pub listener_writer_max_bytes : ℕ
listener_writer_max_bytes = 98304

abbrev pub listener_writer_max_identities : ℕ
listener_writer_max_identities = 256

unfoldable pub safe_value : Str → Str
unfolding valid_listener_value
safe_value value = if valid_listener_value value then value else lit "-"

unfoldable pub safe_digest : Str → Str
unfolding is_queue_digest
safe_digest value = if digest_or_dash value then value else lit "-"

-- The map of `safeSortedUnique`, as the list of its keys.
unfoldable pub unique : List Str → List Str
unfolding safe_value one_of
unique [] = []
unique (v ∷ values) =
    let rest = unique values in if one_of (safe_value v) rest then rest else safe_value v ∷ rest

unfoldable pub safe_sorted_unique : List Str → List Str
unfolding unique sort_strings
safe_sorted_unique values = sort_strings (unique values)

abbrev pub yes_no : Bool → Str
yes_no b = if b then lit "yes" else lit "no"

-- A word of a record and what follows it.
abbrev pub token : Str → Str → Str → Str
token key value rest = key ++ (61 ∷ (value ++ (32 ∷ rest)))

unfoldable pub identity_line : ListenerIdentity → Str
unfolding safe_value safe_digest decimal
identity_line i =
    lit "identity "
    ++ token (lit "name") (safe_value i.name) (
        token (lit "principal") i.principal (
          token (lit "listening") (yes_no i.listening) (
            token (lit "route") i.route (
              token (lit "phase") i.phase (
                token (lit "cc") (safe_value i.cc_version) (
                  token (lit "reason") i.reason (
                    token (lit "pending-ring") (decimal i.pending_ring) (
                      token (lit "pending-info") (decimal i.pending_info) (
                        token (lit "pending-operator") (decimal i.pending_operator) (
                          token (lit "generation") (safe_digest i.generation) (
                            token (lit "first-seen") (decimal i.first_seen) (
                              token (lit "oldest-pending") (decimal i.oldest_pending) (
                                token (lit "written-rings") (decimal i.written_rings) (
                                  token (lit "last-written") (decimal i.last_written) (
                                    token (lit "last-drain") (decimal i.last_drain) (
                                      token (lit "last-drain-before")
                                        (safe_digest i.last_drain_before)
                                        (token (lit "last-drain-after")
                                          (safe_digest i.last_drain_after)
                                          (lit "last-drain-status="
                                            ++ (i.last_drain_status ++ (10 ∷ []))))))))))))))))))))

-- `formatListenerIdentity`, with the check on its length.
unfoldable pub format_identity : ListenerIdentity → Option Str
unfolding identity_line valid_enums
format_identity i =
    if not (valid_enums i && route_agrees i)
    then none
    else if ltb listener_max_record_bytes (length (identity_line i) - 1)
    then none
    else some (identity_line i)

unfoldable pub insert_identity : ListenerIdentity → List ListenerIdentity → List ListenerIdentity
unfolding safe_value str_lt
insert_identity i [] = i ∷ []
insert_identity i (j ∷ js) =
    let rest = insert_identity i js in
    if str_lt (safe_value j.name) (safe_value i.name) then j ∷ rest else i ∷ (j ∷ js)

unfoldable pub sort_identities : List ListenerIdentity → List ListenerIdentity
unfolding insert_identity
sort_identities [] = []
sort_identities (i ∷ is') = insert_identity i (sort_identities is')

abbrev pub cons_line : Option Str → Option (List Str) → Option (List Str)
cons_line (some l) (some ls) = some (l ∷ ls)
cons_line _ _ = none

unfoldable pub format_identities : List ListenerIdentity → Option (List Str)
unfolding format_identity
format_identities [] = some []
format_identities (i ∷ is') = cons_line (format_identity i) (format_identities is')

abbrev pub component_line : ListenerComponent → Str
component_line c =
    lit "component "
    ++ (safe_value c.name
        ++ (lit " release="
            ++ (safe_value c.release
                ++ (lit " adapter="
                    ++ (safe_value c.adapter
                        ++ (lit " ears=" ++ (safe_value c.ears ++ (10 ∷ []))))))))

abbrev pub joined_text : List Str → Str
joined_text [] = []
joined_text (l ∷ ls) = l ++ joined_text ls

abbrev pub component_lines : List ListenerComponent → Str
component_lines [] = []
component_lines (c ∷ cs) = component_line c ++ component_lines cs

-- `strings.Join` with a space, of the mailboxes or a dash.
abbrev pub spaced : List Str → Str
spaced [] = lit "-"
spaced (v ∷ []) = v
spaced (v ∷ w ∷ vs) = v ++ (32 ∷ spaced (w ∷ vs))

abbrev pub dash_or_decimal : Option ℕ → Str
dash_or_decimal none = lit "-"
dash_or_decimal (some n) = decimal n

abbrev pub record_line : Str → Str → Str → Str
record_line key value rest = key ++ (32 ∷ (value ++ (10 ∷ rest)))

-- `buildHeader`.
unfoldable pub build_header : ListenerSnapshot → Bool → Str
unfolding safe_sorted_unique decimal safe_value
build_header s complete =
    lit "ears 1"
    ++ (10
        ∷ record_line (lit "node") s.node (
            record_line (lit "generation") (decimal s.generation) (
              record_line (lit "written-at") (decimal s.written_at) (
                record_line (lit "interval") (decimal s.interval) (
                  record_line (lit "state") s.state (
                    record_line (lit "complete") (yes_no complete) (
                      component_lines s.components
                      ++ record_line (lit "mailbox") (spaced (safe_sorted_unique s.mailboxes))
                          (record_line (lit "link") (dash_or_decimal s.link_age) []))))))))

-- `validateListenerSnapshotRecordLengths`, of a text that ends with its last line.
unfoldable pub has_short_lines : Str → Bool
unfolding scan_lines
has_short_lines text = all (λ l. leb (length l) listener_max_record_bytes) (scan_lines text)

abbrev pub trailer : ℕ → Str
trailer omitted = lit "truncated " ++ (decimal omitted ++ (10 ∷ []))

-- The lines that fit after so many bytes and lines, if the rest is left out.
unfoldable pub fitting : ℕ → ℕ → List Str → List Str
unfolding decimal
fitting used written [] = []
fitting used written (line ∷ lines) =
    let rest = fitting (used + length line) (written + 1) lines in
    if not (ltb written listener_writer_max_identities)
    then []
    else if ltb listener_writer_max_bytes (used + length line + length (trailer (length lines)))
    then []
    else line ∷ rest

-- The text by its parts: the header, the identities that are written, and how many are left out, if it
-- is not complete.
pub record Formatted : Type 0 where
  pub header : Str
  pub lines : List Str
  pub omitted : Option ℕ

abbrev pub text_of : Formatted → Str
text_of f = f.header ++ (joined_text f.lines ++ elim f.omitted [ none ↦ [] | some n ↦ trailer n ])

abbrev pub truncate : Str → List Str → Option Formatted
truncate header lines =
    let kept = fitting (length header) 0 lines in
    let omitted = length lines - length kept in
    if not (has_short_lines header)
    then none
    else if ltb listener_writer_max_bytes
        (length (header ++ joined_text kept) + length (trailer omitted))
    then none
    else some (record { header = header; lines = kept; omitted = some omitted })

abbrev pub format_lines : ListenerSnapshot → List Str → Option Formatted
format_lines s lines =
    let few = leb (length lines) listener_writer_max_identities in
    let header = build_header s few in
    if not (has_short_lines header)
    then none
    else if few && leb (length (header ++ joined_text lines)) listener_writer_max_bytes
    then some (record { header = header; lines = lines; omitted = none })
    else truncate (build_header s false) lines

abbrev pub valid_header : ListenerSnapshot → Bool
valid_header s =
    valid_node s.node
    && (ltb 0 s.interval
        && (one_of s.state (lit "running" ∷ lit "stopping" ∷ []) && not (length s.components == 0)))

unfoldable pub format_snapshot : ListenerSnapshot → Option Formatted
unfolding sort_identities format_identities build_header has_short_lines fitting valid_node one_of
format_snapshot s =
    if not (valid_header s) then none else elim (format_identities (sort_identities s.identities)) [
      | none ↦ none
      | some lines ↦ format_lines s lines
    ]
