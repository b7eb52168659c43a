-- ===== src/Tabs/Access/Tests.antt =====
-- apps/desktop/src/main/TabAccessRegistry.ts and TabSleepingPolicy.ts on concrete values.
use locus_browser.Base.{
  ◌≡◌, refl, String, true, false, Option, none, some, [], get, set, delete, str_eq, if◌then◌else◌,
}
use locus_browser.Tabs.Access.{
  Registry, Grant, read, interact, grant, revoke, access, Url, put_or_drop, revoke_from,
}
use locus_browser.Tabs.Access.Invariant.{Reach, start, next, granted}
use locus_browser.Tabs.Sleeping.{TabSleepCandidate, should_sleep_tab, can_sleep_tab}

abbrev one : Registry
one = (grant "work" "mail" read "user" "monday" []).1

abbrev both : Registry
both = (grant "other" "mail" interact "user" "tuesday" one).1

both-Reach : Reach both
both-Reach =
    next (next start (granted "work" "mail" read "user" "monday"))
      (granted "other" "mail" interact "user" "tuesday")

abbrev mail_grant : Grant
mail_grant = record {
  session_id = "work";
  tab_id = "mail";
  level = read;
  source = "user";
  granted_at = "monday";
}

work_access : access both "work" "mail" ≡ some mail_grant
unfolding access grant get set
work_access = refl

-- The grant of the tab goes with its session.
dropped : (revoke "work" "mail" one).1 ≡ []
unfolding revoke revoke_from put_or_drop grant get set delete
dropped = refl

abbrev parse_example : String → Option Url
parse_example raw =
    if str_eq raw "https://example.org/"
    then some (record { protocol = "https:"; hostname = "example.org" })
    else none

abbrev idle : TabSleepCandidate
idle = record {
  active = false;
  sleeping = false;
  loading = false;
  audible = false;
  media_playing = false;
  granted = false;
  downloading = false;
}

asleep : should_sleep_tab idle 100 1800100 30 ≡ true
unfolding should_sleep_tab can_sleep_tab
asleep = refl
