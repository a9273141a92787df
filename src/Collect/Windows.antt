-- ===== src/Collect/Windows.antt =====
-- `_evaluate_windows_check`: whether a check passes, and the detail for its evidence. The parsing of
-- dates is a library's: `days_since` gives the days from the date that a text names until now, and
-- `none` where no date is found or the parser raises.
use assistant_audit.Prelude.{
  ℕ, String, Bool, true, false, not, ◌&&◌, ◌||◌, Option, none, some, List, [], ◌∷◌, ◌==◌, string_eq,
  leb, map, if◌then◌else◌, lower, is_in, any_in, is_empty, decimal, join, ◌⧺◌,
}
use assistant_audit.Collect.Rows.{WindowsFacts, get_or}

-- `(datetime.now() - last_dt).days`, which is negative for a date to come
pub data Days : Type 0 where
  past ahead : ℕ → Days

abbrev is_recent_update : Days → Bool
is_recent_update (past n) = leb n 30
is_recent_update (ahead n) = true

abbrev days_text : Days → String
days_text (past n) = decimal n
days_text (ahead n) = "-" ⧺ decimal n

abbrev os_supported : WindowsFacts → Bool × String
os_supported facts =
    if any_in ("2008" ∷ "2003" ∷ "2000" ∷ "2012" ∷ []) (lower (get_or facts.caption ""))
    then (false, "OS: " ⧺ get_or facts.caption "N/A" ⧺ " — version obsolète")
    else (true, "OS: " ⧺ get_or facts.caption "N/A")

abbrev updates_recent : (String → Option Days) → WindowsFacts → Bool × String
updates_recent days_since facts =
    let last = get_or facts.last_update_date "" in
    if is_empty last || is_in "ERROR" last
    then (false, "Impossible de déterminer la date de dernière mise à jour")
    else elim (days_since last) [
      | none ↦ (false, "Date dernière MàJ: " ⧺ last)
      | some days ↦ (
        is_recent_update days,
        "Dernière mise à jour il y a " ⧺ days_text days ⧺ " jours (" ⧺ last ⧺ ")",
      )
    ]

abbrev wsus_configured : WindowsFacts → Bool × String
wsus_configured facts =
    if get_or facts.wsus_configured false
    then (true, "WSUS configuré : " ⧺ get_or facts.wsus_server "")
    else (false, "Aucun serveur WSUS configuré")

abbrev admin_renamed : WindowsFacts → Bool × String
admin_renamed facts =
    if get_or facts.admin_renamed false
    then (true, "Le compte admin SID-500 a été renommé")
    else (false, "Le compte Administrator/Administrateur n'est pas renommé")

abbrev password_policy_ok : WindowsFacts → Bool × String
password_policy_ok facts =
    let min_len = decimal (get_or facts.min_length_value 0) in
    if get_or facts.meets_12_chars false
    then (true, "Longueur min. mot de passe : " ⧺ min_len ⧺ " caractères")
    else (false, "Longueur min. mot de passe : " ⧺ min_len ⧺ " caractères (< 12)")

abbrev lockout_configured : WindowsFacts → Bool × String
lockout_configured facts =
    if get_or facts.lockout_configured false
    then (true, "Verrouillage après " ⧺ decimal (get_or facts.lockout_threshold 0) ⧺ " tentatives")
    else (false, "Verrouillage de compte non configuré (seuil = 0)")

abbrev profile_text : String × Bool → String
profile_text (name, enabled) = name ⧺ "=" ⧺ (if enabled then "On" else "Off")

abbrev log_text : String × ℕ → String
log_text (name, size) = name ⧺ "=" ⧺ decimal size ⧺ "MB"

-- `", ".join(...) if items else "N/A"`
abbrev listing : List String → String
listing [] = "N/A"
listing (t ∷ ts) = join ", " (t ∷ ts)

abbrev firewall_all_enabled : WindowsFacts → Bool × String
firewall_all_enabled facts =
    let desc = listing (map profile_text facts.firewall_profiles) in
    if get_or facts.firewall_all_enabled false
    then (true, "Pare-feu actif sur tous les profils (" ⧺ desc ⧺ ")")
    else (false, "Pare-feu non actif sur tous les profils (" ⧺ desc ⧺ ")")

abbrev rdp_nla : WindowsFacts → Bool × String
rdp_nla facts =
    if not (get_or facts.rdp_enabled false)
    then (true, "RDP est désactivé")
    else if get_or facts.rdp_nla_enabled false
    then (true, "RDP actif avec NLA activé")
    else (false, "RDP actif sans NLA (Network Level Authentication)")

abbrev audit_policy_configured : WindowsFacts → Bool × String
audit_policy_configured facts =
    let audit_raw = get_or facts.audit_policy "" in
    if not (is_empty audit_raw) && is_in "Success" audit_raw && is_in "Failure" audit_raw
    then (true, "Stratégie d'audit configurée (succès + échecs)")
    else if not (is_empty audit_raw) && is_in "Success" audit_raw
    then (true, "Stratégie d'audit configurée (succès uniquement)")
    else (false, "Stratégie d'audit non configurée ou incomplète")

abbrev logs_min_100mb : WindowsFacts → Bool × String
logs_min_100mb facts =
    let desc = listing (map log_text facts.event_logs) in
    if get_or facts.logs_min_100mb false
    then (true, "Journaux >= 100 MB (" ⧺ desc ⧺ ")")
    else (false, "Journaux < 100 MB (" ⧺ desc ⧺ ")")

abbrev antivirus_active : WindowsFacts → Bool × String
antivirus_active facts =
    if get_or facts.antivirus_active false
    then (true, "Antivirus/EDR actif")
    else (false, "Aucun antivirus/EDR actif détecté")

unfoldable pub evaluate_windows_check :
    (String → Option Days) → WindowsFacts → String → Bool × String
evaluate_windows_check days_since facts check_name =
    if check_name == "os_supported"
    then os_supported facts
    else if check_name == "updates_recent"
    then updates_recent days_since facts
    else if check_name == "wsus_configured"
    then wsus_configured facts
    else if check_name == "admin_renamed"
    then admin_renamed facts
    else if check_name == "password_policy_ok"
    then password_policy_ok facts
    else if check_name == "lockout_configured"
    then lockout_configured facts
    else if check_name == "firewall_all_enabled"
    then firewall_all_enabled facts
    else if check_name == "rdp_nla"
    then rdp_nla facts
    else if check_name == "audit_policy_configured"
    then audit_policy_configured facts
    else if check_name == "logs_min_100mb"
    then logs_min_100mb facts
    else if check_name == "antivirus_active"
    then antivirus_active facts
    else (false, "Vérification '" ⧺ check_name ⧺ "' non implémentée")
