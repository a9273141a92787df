-- ===== src/Pipeline/Hosts.antt =====
-- The hosts of a scan: `_normalize_host` and the detection of the profile of a collect. An agent
-- sends JSON; its values are taken to have the types that `_normalize_host` gives them, except that
-- an entry of a list may be of another kind (`none`), which the program skips.
use assistant_audit.Prelude.{
  ℕ, zero, String, Bool, false, not, ◌&&◌, ◌||◌, Option, none, some, List, [], ◌∷◌, ◌==◌, string_eq,
  nat_eq, nonempty, contains, if◌then◌else◌, lower, any_in, join,
}

pub record RawPort : Type 0 where
  pub port : Option ℕ
  pub port_number : Option ℕ
  pub proto : Option String
  pub protocol : Option String
  pub state : Option String
  pub service : Option String
  pub service_name : Option String

pub record RawHost : Type 0 where
  pub ip : Option String
  pub ip_address : Option String
  pub hostname : Option String
  pub mac : Option String
  pub mac_address : Option String
  pub vendor : Option String
  pub os : Option String
  pub os_guess : Option String
  pub ports : Option (List (Option RawPort))

pub record NmapPort : Type 0 where
  pub port : ℕ
  pub protocol : String
  pub state : String
  pub service : String

pub record NmapHost : Type 0 where
  pub ip : String
  pub hostname : String
  pub mac : String
  pub vendor : String
  pub os : String
  pub ports : List NmapPort

-- `a or b`, where the empty text, zero and `None` are false.
abbrev pub text_or : Option String → String → String
text_or a default = elim (nonempty a) [ none ↦ default | some s ↦ s ]

abbrev pub number_or : Option ℕ → ℕ → ℕ
number_or none default = default
number_or (some zero) default = default
number_or (some n) default = n

abbrev pub list_or_empty {ℓ} : {A : Type ℓ} → Option (List A) → List A
list_or_empty none = []
list_or_empty (some xs) = xs

abbrev pub normalize_port : RawPort → NmapPort
normalize_port p = record {
  port = number_or p.port (number_or p.port_number 0);
  protocol = text_or p.proto (text_or p.protocol "tcp");
  state = text_or p.state "";
  service = text_or p.service (text_or p.service_name "");
}

abbrev pub normalize_ports : List (Option RawPort) → List NmapPort
normalize_ports [] = []
normalize_ports (none ∷ rest) = normalize_ports rest
normalize_ports (some p ∷ rest) = normalize_port p ∷ normalize_ports rest

abbrev pub normalize_host : RawHost → NmapHost
normalize_host raw = record {
  ip = text_or raw.ip (text_or raw.ip_address "");
  hostname = text_or raw.hostname "";
  mac = text_or raw.mac (text_or raw.mac_address "");
  vendor = text_or raw.vendor "";
  os = text_or raw.os (text_or raw.os_guess "");
  ports = normalize_ports (list_or_empty raw.ports);
}

-- `[_normalize_host(h) for h in raw_hosts if isinstance(h, dict)]`
abbrev pub normalize_hosts : List (Option RawHost) → List NmapHost
normalize_hosts [] = []
normalize_hosts (none ∷ rest) = normalize_hosts rest
normalize_hosts (some h ∷ rest) = normalize_host h ∷ normalize_hosts rest

abbrev pub is_open : NmapPort → Bool
is_open p = p.state == "open"

-- The set is read by membership only.
abbrev pub open_port_numbers : List NmapPort → List ℕ
open_port_numbers [] = []
open_port_numbers (p ∷ ps) =
    if is_open p && not (p.port == 0) then p.port ∷ open_port_numbers ps else open_port_numbers ps

-- `if not value: return False` adds nothing: no needle is in the empty text, none being empty.
unfoldable pub matches : String → List String → Bool
matches String.[] needles = false
matches value needles = any_in needles (lower value)

abbrev pub banners : List NmapPort → List String
banners [] = []
banners (p ∷ ps) = if is_open p && not (p.service == "") then p.service ∷ banners ps else banners ps

pub record Signals : Type 0 where
  pub os_guess : String
  pub banners_text : String

abbrev pub host_signals : NmapHost → Signals
host_signals host = record { os_guess = host.os; banners_text = join " " (banners host.ports) }

pub data CollectProfile : Type 0 where
  linux_server windows_server opnsense : CollectProfile

abbrev pub has_ssh : NmapHost → Bool
has_ssh host = contains 22 (open_port_numbers host.ports)

abbrev pub has_winrm : NmapHost → Bool
has_winrm host =
    contains 5985 (open_port_numbers host.ports) || contains 5986 (open_port_numbers host.ports)

unfoldable pub is_opnsense : NmapHost → Bool
unfolding matches
is_opnsense host =
    matches (host_signals host).os_guess ("opnsense" ∷ "pfsense" ∷ "freebsd" ∷ [])
    || matches (host_signals host).banners_text ("opnsense" ∷ "pfsense" ∷ [])

unfoldable pub is_windows : NmapHost → Bool
unfolding matches
is_windows host = matches (host_signals host).os_guess ("windows" ∷ "microsoft" ∷ [])

unfoldable pub is_linux : NmapHost → Bool
unfolding matches
is_linux host =
    matches (host_signals host).os_guess
      ("linux" ∷ "ubuntu" ∷ "debian" ∷ "centos" ∷ "redhat" ∷ "rhel" ∷ "fedora" ∷ "alpine" ∷ [])

unfoldable pub detect_collect_profile : NmapHost → Option CollectProfile
unfolding is_opnsense is_windows is_linux
detect_collect_profile host =
    if is_opnsense host && has_ssh host
    then some opnsense
    else if is_windows host && has_winrm host
    then some windows_server
    else if is_linux host && has_ssh host
    then some linux_server
    else if has_ssh host && not (has_winrm host)
    then some linux_server
    else if has_winrm host && not (has_ssh host)
    then some windows_server
    else none
