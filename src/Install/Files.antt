-- ===== src/Install/Files.antt =====
-- The files under $KHALA_HOME: a path is its list of components, and a file is its content. What
-- the operating system may refuse comes from an `Io`, one answer for each call.
use khala_network.Common.{
  ◌≡◌, refl, Str, lit, str_eq, str_eq_sound, str_eq_refl, List, [], ◌∷◌, Option, none,
  if◌then◌else◌, Bool, true, false, ◌&&◌, ◌||◌, ◌↔◌, arith,
}

abbrev pub FilePath : Type 0
FilePath = List Str

pub path_eq : FilePath → FilePath → Bool
path_eq [] [] = true
path_eq [] (_ ∷ _) = false
path_eq (_ ∷ _) [] = false
path_eq (a ∷ p) (b ∷ q) = str_eq a b && path_eq p q

path_eq_sound : (p q : FilePath) → path_eq p q ≡ true → p ≡ q
unfolding path_eq
path_eq_sound [] [] h = refl
path_eq_sound [] (b ∷ q) h = cc
path_eq_sound (a ∷ p) [] h = cc
path_eq_sound (a ∷ p) (b ∷ q) h = ground (arith, path_eq_sound p q, str_eq_sound a b)

path_eq_refl : (p : FilePath) → path_eq p p ≡ true
unfolding path_eq
path_eq_refl [] = refl
path_eq_refl (a ∷ p) = ground (arith, path_eq_refl p, str_eq_refl a)

pub path_eq_iff : (p q : FilePath) → (path_eq p q ≡ true) ↔ (p ≡ q)
path_eq_iff p q = (path_eq_sound p q, λ e. rw (← e) (path_eq_refl p))

-- The content of each regular file; `none` where there is none.
abbrev pub Fs : Type 0
Fs = FilePath → Option Str

unfoldable pub put : FilePath → Option Str → Fs → Fs
unfolding path_eq
put p c fs q = if path_eq p q then c else fs q

-- rename(2), which replaces what is there.
unfoldable pub rename : FilePath → FilePath → Fs → Fs
unfolding put
rename p q fs = put p none (put q (fs p) fs)

-- link(2) onto a free name.
unfoldable pub link : FilePath → FilePath → Fs → Fs
unfolding put
link p q fs = put q (fs p) fs

-- Where transfers are staged and refused objects are kept: `tmp`, `spool/quarantine`, `spool/dead`
-- and `quarantine`.
abbrev pub in_work_area : FilePath → Bool
in_work_area [] = false
in_work_area (a ∷ []) = str_eq a (lit "tmp") || str_eq a (lit "quarantine")
in_work_area (a ∷ b ∷ p) =
    str_eq a (lit "tmp")
    || (str_eq a (lit "quarantine")
        || (str_eq a (lit "spool") && (str_eq b (lit "quarantine") || str_eq b (lit "dead"))))

-- A file of the mailbox itself.
abbrev pub IsMail : FilePath → Type 0
IsMail p = in_work_area p ≡ false
