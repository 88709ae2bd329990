-- ===== src/Examples/Mail.antt =====
-- The letter is received, refused and placed.
use khala_network.Common.{◌≡◌, refl, lit, [], ◌∷◌, some, ok, err, true, arith, All, ltb, ◌+◌, ◌*◌}
use khala_network.Names.{IsSegment, presence_node, valid_node, valid_basename}
use khala_network.Install.Files.{FilePath, IsMail}
use khala_network.Install.Destination.{destination, destination_safe, reflected}
use khala_network.Install.Epochs.{since, epoch_expired, epoch_expired_exact}
use khala_network.Install.Receive.{receive}
use khala_network.Install.Quarantine.Keeps.{SameMail}
use khala_network.Install.Immutable.{Outcome}
use khala_network.Install.Mailbox.{receive-Outcome, receive_refused}
use khala_network.Examples.Data.{
  letter, letter_object, dialer, server, calm, empty_home, checksum, parser, contents,
}

abbrev letter_path : FilePath
letter_path = lit "spool" ∷ lit "for" ∷ lit "probe" ∷ lit "12.34.5.tassadar@adun" ∷ []

to_probe : destination dialer letter_object ≡ ok letter_path
unfolding destination valid_node valid_basename
to_probe = refl

reflected_letter : destination server letter_object ≡ err reflected
unfolding destination valid_node valid_basename
reflected_letter = refl

destination_safe_example : All IsSegment letter_path × IsMail letter_path
destination_safe_example = destination_safe dialer letter_object to_probe

receive-Outcome_example :
    Outcome checksum letter_path letter contents empty_home
      (receive checksum parser dialer 30 calm (since 100) letter contents empty_home)
receive-Outcome_example =
    receive-Outcome checksum parser dialer 30 calm (since 100) letter contents letter_path
      empty_home to_probe refl

receive_refused_example :
    ((receive checksum parser server 30 calm (since 100) letter contents empty_home).failed ≡ true)
    × SameMail empty_home
        (receive checksum parser server 30 calm (since 100) letter contents empty_home).fs
receive_refused_example =
    receive_refused checksum parser server 30 calm (since 100) letter contents empty_home
      reflected_letter

epoch_expired_exact_example :
    epoch_expired 1000 30 1 3000000 ≡ ltb (1000 + (30 + 1) * 86400) 3000000
epoch_expired_exact_example = epoch_expired_exact 1000 30 1 3000000 (omega arith) (omega arith)

tassadar : presence_node (lit "tassadar@adun.ear") ≡ some (lit "adun")
unfolding presence_node valid_node valid_basename
tassadar = refl
