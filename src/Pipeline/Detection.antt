-- ===== src/Pipeline/Detection.antt =====
-- What the detected profile says of a host.
use assistant_audit.Prelude.{
  ◌≡◌, ◌↔◌, ◌⊎◌, Bool, true, false, not, ◌&&◌, ◌||◌, Option, none, some, arith, if◌then◌else◌,
}
use assistant_audit.Pipeline.Hosts.{
  NmapHost, CollectProfile, linux_server, windows_server, opnsense, has_ssh, has_winrm, is_opnsense,
  is_windows, is_linux, detect_collect_profile,
}

-- The port that the collect of a profile needs.
abbrev pub is_reachable : CollectProfile → NmapHost → Bool
is_reachable linux_server host = has_ssh host
is_reachable opnsense host = has_ssh host
is_reachable windows_server host = has_winrm host

-- The choice, by the five tests.
choose : (o w l s r : Bool) → Option CollectProfile
choose o w l s r =
    if o && s
    then some opnsense
    else if w && r
    then some windows_server
    else if l && s
    then some linux_server
    else if s && not r
    then some linux_server
    else if r && not s
    then some windows_server
    else none

reachable_by : (s r : Bool) → CollectProfile → Bool
reachable_by s r linux_server = s
reachable_by s r opnsense = s
reachable_by s r windows_server = r

choose-reachable :
    (o w l s r : Bool) (p : CollectProfile) → choose o w l s r ≡ some p → reachable_by s r p ≡ true
unfolding choose reachable_by
choose-reachable o w l s r linux_server h = ground arith
choose-reachable o w l s r windows_server h = ground arith
choose-reachable o w l s r opnsense h = ground arith

choose-none :
    (o w l s r : Bool)
    → (choose o w l s r ≡ none)
      ↔ (((s || r) ≡ false) ⊎ (((s && r) ≡ true) × ((o || w || l) ≡ false)))
unfolding choose
choose-none o w l s r = ground arith

-- A detected profile is reachable: SSH is open for the Linux and the OPNsense profile, WinRM for
-- the Windows profile. No profile is detected for the hosts with neither SSH nor WinRM open, and
-- for the hosts with both open whose system is not recognised; for no others.
pub detect_collect_profile-reachable :
    (host : NmapHost)
    → ((p : CollectProfile) → detect_collect_profile host ≡ some p → is_reachable p host ≡ true)
      × ((detect_collect_profile host ≡ none) ↔ (
          ((has_ssh host || has_winrm host) ≡ false)
          ⊎ (((has_ssh host && has_winrm host) ≡ true)
              × ((is_opnsense host || is_windows host || is_linux host) ≡ false))))
unfolding detect_collect_profile choose reachable_by
detect_collect_profile-reachable host =
    let o = is_opnsense host in
    let w = is_windows host in
    let l = is_linux host in
    (
      (λ p h. at_port p (choose-reachable o w l (has_ssh host) (has_winrm host) p h)),
      choose-none o w l (has_ssh host) (has_winrm host),
    )
  where
    at_port :
        (p : CollectProfile)
        → reachable_by (has_ssh host) (has_winrm host) p ≡ true
        → is_reachable p host ≡ true
    at_port linux_server h = h
    at_port windows_server h = h
    at_port opnsense h = h
