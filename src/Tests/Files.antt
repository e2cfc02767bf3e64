-- ===== src/Tests/Files.antt =====
-- The files that a message brings along.
use aimclaw.Base.{
  Bool, String, str_eq, ◌≡◌, refl, true, false, Option, none, some, if◌then◌else◌, List, [], ◌∷◌,
}
use aimclaw.Attachments.{Kind, Tree, Containment, directory, file, ensure_contained_inbox_dir}
use aimclaw.Attachments.Forwarding.{Copied}

abbrev real_path : String → Option String
real_path p =
    if str_eq p "/s/inbox"
    then some "/real/inbox"
    else if str_eq p "/s/inbox/m"
    then some "/real/inbox/m"
    else if str_eq p "/t/outbox/q"
    then some "/real/out/q"
    else if str_eq p "/t/outbox/q/a.png"
    then some "/real/out/q/a.png"
    else none

abbrev kind : String → Option Kind
kind p =
    if str_eq p "/s/inbox"
    then some directory
    else if str_eq p "/t/outbox/q"
    then some directory
    else if str_eq p "/t/outbox/q/a.png"
    then some file
    else none

abbrev is_free : Option Kind → Bool
is_free none = true
is_free (some k) = false

abbrev tree : Tree
tree = record {
  lstat = kind;
  mkdir_throws = λ p. false;
  realpath = real_path;
  copies = λ s d. is_free (kind d);
}

refused_test : ensure_contained_inbox_dir "/" tree "/s/inbox" "../m" ≡ Containment.refused
unfolding ensure_contained_inbox_dir
refused_test = refl

abbrev copies : List Copied
copies =
    record { name = "a.png"; real_source = "/real/out/q/a.png"; target = "/real/inbox/m/a.png" }
    ∷ []
