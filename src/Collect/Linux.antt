-- ===== src/Collect/Linux.antt =====
-- `_evaluate_linux_check`: whether a check passes, and the detail for its evidence.
use text.Mathlib.Text.{starts_with}
use assistant_audit.Prelude.{
  String, Bool, true, false, not, ◌&&◌, ◌||◌, Option, List, [], ◌∷◌, ◌==◌, string_eq, nat_eq,
  contains, if◌then◌else◌, lower, is_in, strip, first_word, split_lines, is_empty, decimal, ◌⧺◌,
}
use assistant_audit.Collect.Rows.{LinuxFacts, get_or}

abbrev eol_patterns : List (String × List String)
eol_patterns =
    ("ubuntu", "14.04" ∷ "16.04" ∷ "18.04" ∷ [])
    ∷ ("debian", "8" ∷ "9" ∷ "10" ∷ [])
    ∷ ("centos", "6" ∷ "7" ∷ [])
    ∷ ("rhel", "6" ∷ "7" ∷ [])
    ∷ []

abbrev starts_with_any : String → List String → Bool
starts_with_any text [] = false
starts_with_any text (p ∷ ps) = starts_with text p || starts_with_any text ps

-- The loops of "os_supported" find an end of life.
abbrev is_end_of_life : List (String × List String) → String → String → Bool
is_end_of_life [] distro version_id = false
is_end_of_life ((key, versions) ∷ rest) distro version_id =
    is_in key distro && starts_with_any version_id versions || is_end_of_life rest distro version_id

abbrev os_supported : LinuxFacts → Bool × String
os_supported facts =
    let version_id = get_or facts.version_id "" in
    if is_end_of_life eol_patterns (lower (get_or facts.distro "")) version_id
    then (
      false,
      "Distribution: "
          ⧺ get_or facts.distro "None"
          ⧺ " "
          ⧺ version_id
          ⧺ " — potentiellement en fin de vie",
    )
    else (true, "Distribution: " ⧺ get_or facts.distro "N/A" ⧺ " " ⧺ version_id)

abbrev no_pending_security_updates : LinuxFacts → Bool × String
no_pending_security_updates facts =
    let sec_updates = get_or facts.security_updates 0 in
    if sec_updates == 0
    then (true, "Aucune mise à jour de sécurité en attente")
    else (false, decimal sec_updates ⧺ " mise(s) à jour de sécurité en attente")

abbrev auto_updates_configured : LinuxFacts → Bool × String
auto_updates_configured facts =
    if get_or facts.auto_updates_configured false
    then (true, "Mises à jour automatiques configurées")
    else (false, "Mises à jour automatiques non configurées")

-- "rsyslog_active" and "auditd_active"
abbrev service_active : String → Option String → Bool × String
service_active name value =
    let status = get_or value "inactive" in
    if status == "active" then (true, name ⧺ " est actif") else (false, name ⧺ " status: " ⧺ status)

abbrev ssh_root_disabled : LinuxFacts → Bool × String
ssh_root_disabled facts =
    let ssh_root = lower (strip (get_or facts.ssh_permit_root_login "NOT_SET")) in
    if is_in "no" ssh_root && not (is_in "without-password" ssh_root)
    then (true, "PermitRootLogin = " ⧺ ssh_root)
    else if ssh_root == "not_set" || ssh_root == ""
    then (false, "PermitRootLogin non défini explicitement (défaut: yes)")
    else (false, "PermitRootLogin = " ⧺ ssh_root)

abbrev ssh_password_disabled : LinuxFacts → Bool × String
ssh_password_disabled facts =
    let ssh_pass = lower (strip (get_or facts.ssh_password_authentication "NOT_SET")) in
    if is_in "no" ssh_pass
    then (true, "PasswordAuthentication = no")
    else (false, "PasswordAuthentication = " ⧺ ssh_pass)

abbrev pam_configured : LinuxFacts → Bool × String
pam_configured facts =
    let pam = get_or facts.pam_pwquality "NOT_CONFIGURED" in
    if not (is_empty pam) && not (pam == "NOT_CONFIGURED") && is_in "minlen" (lower pam)
    then (true, "PAM pwquality configuré")
    else (false, "PAM pwquality non configuré")

abbrev firewall_active : LinuxFacts → Bool × String
firewall_active facts =
    let fw = get_or facts.firewall_status "none_detected" in
    if contains fw ("ufw_active" ∷ "iptables_active" ∷ "nftables_active" ∷ [])
    then (true, "Pare-feu actif (" ⧺ fw ⧺ ")")
    else (false, "Aucun pare-feu local actif détecté (" ⧺ fw ⧺ ")")

abbrev antivirus_installed : LinuxFacts → Bool × String
antivirus_installed facts =
    let av = get_or facts.antivirus_edr "NONE" in
    if not (is_empty av) && not (av == "NONE")
    then (true, "Agent de sécurité détecté: " ⧺ av)
    else (false, "Aucun agent de sécurité (EDR/antivirus) détecté")

-- The loop over the lines of "file_permissions_ok"; a line with "shadow" in it has a word.
abbrev shadow_mode : List String → Bool × String
shadow_mode [] = (false, "Impossible de vérifier les permissions")
shadow_mode (line ∷ rest) =
    let mode = first_word line in
    if is_in "shadow" line
    then if is_in "rw-r-----" mode || is_in "rw-------" mode
      then (true, "Permissions /etc/shadow : " ⧺ mode)
      else (false, "Permissions /etc/shadow trop permissives : " ⧺ mode)
    else shadow_mode rest

abbrev file_permissions_ok : LinuxFacts → Bool × String
file_permissions_ok facts =
    let perms = get_or facts.passwd_perms "" in
    if is_in "/etc/shadow" perms
    then shadow_mode (split_lines perms)
    else (false, "Impossible de vérifier les permissions")

unfoldable pub evaluate_linux_check : LinuxFacts → String → Bool × String
evaluate_linux_check facts check_name =
    if check_name == "os_supported"
    then os_supported facts
    else if check_name == "no_pending_security_updates"
    then no_pending_security_updates facts
    else if check_name == "auto_updates_configured"
    then auto_updates_configured facts
    else if check_name == "ssh_root_disabled"
    then ssh_root_disabled facts
    else if check_name == "ssh_password_disabled"
    then ssh_password_disabled facts
    else if check_name == "pam_configured"
    then pam_configured facts
    else if check_name == "firewall_active"
    then firewall_active facts
    else if check_name == "rsyslog_active"
    then service_active "rsyslog" facts.rsyslog_active
    else if check_name == "auditd_active"
    then service_active "auditd" facts.auditd_active
    else if check_name == "antivirus_installed"
    then antivirus_installed facts
    else if check_name == "file_permissions_ok"
    then file_permissions_ok facts
    else (false, "Vérification '" ⧺ check_name ⧺ "' non implémentée")
