-- ===== src/Scenario/Witnesses.antt =====
-- The theorems with hypotheses, each at a concrete input that meets them.
use ngm.Base.{
  ◌+◌, ◌≡◌, ◌↔◌, refl, inr, ◌≤◌, true, false, ◌&&◌, [], ◌∷◌, ◌++◌, none, some, ltb, if◌then◌else◌,
  is_ok, arith, Option,
}
use ngm.Base.Dict.{lookup, insert, delete}
use ngm.Text.{
  Text, text, text_eq, is_empty, is_space, trim_left, trim_right, trim_space, lower, to_lower,
  has_prefix, has_suffix, split, split_step, contains, trim_suffix,
}
use ngm.Text.Place.{is_abs}
use ngm.Os.Paths.{live, staged, path_eq}
use ngm.Os.{write_file_atomic}
use ngm.Os.Atomic.{files-write_file_atomic, write_file_atomic_succeeds}
use ngm.Nginx.{publish, remove_live_site}
use ngm.Nginx.Publish.{publish-live, remove_live_site-live}
use ngm.Config.{Config}
use ngm.Config.Defaults.{apply_defaults}
use ngm.Config.Valid.{validate}
use ngm.Config.Valid.Laws.{Valid, validate_iff}
use ngm.Config.Places.{abs_or_join, abs_or_join-abs}
use ngm.Auth
use ngm.Auth.{
  verify_shadow_password, verify_found, read_shadow_hash, scan, second_field, compare_hash,
  run_crypter, same_hash,
}
use ngm.Auth.Laws.{Opens, verify_shadow_password-Opens}
use ngm.Store.PanelUsers.{get_panel_user_by_username}
use ngm.Web.Session.{get, create, put, session_at, encode_hex, hex_digit}
use ngm.Web.Session.Laws.{looked_up, run, get-create, get-expired}
use ngm.Web.Login.{handle_login, is_locked, authenticates}
use ngm.Web.Login.Laws.{logins, lockout}
use ngm.Web.Access.{site_visible_to_session, can_manage_panel_user, site_owner, panel_user_of}
use ngm.Web.Access.Laws.{site_visible-can_manage}
use ngm.Apply.{rollback_from_backup, normalize_domain}
use ngm.Apply.Rollback.{rollback_from_backup-live, elem, restored}
use ngm.Apply.One.{apply_one}
use ngm.Apply.One.Frame.{apply_one_other_live}
use ngm.Apply.One.Live.{apply_one_settles, SettlesBy, Wanted}
use ngm.Apply.Batch.{apply}
use ngm.Apply.Batch.Laws.{apply_dry, apply_limit, processed}
use ngm.Sites.{validate_parent_domain, check_parent, check_parent_site, label_part, is_root}
use ngm.Sites.Parents.{IsParent, validate_parent_domain-IsParent}
use ngm.Store.{User, Site}
use ngm.Scenario.{
  broken_nginx, failing_disk, world, host, host-BuildsFor, app, request, site_a, site_b, new_conf,
  site_row,
}
use ngm.Scenario.Settings.{settings, parse_cidr, letter}
use ngm.Scenario.Panel.{
  eve, reseller_role, user_role, panel_user, hashes, sessions, server, login, reseller, directory,
}

-- A publish that nginx refuses is rolled back.
apply_one_settles_example :
    SettlesBy host
      (λ n. refl)
      site_a
      app
      (Wanted host (λ n. refl) site_a host-BuildsFor (site_row site_a true) app)
      (apply_one host site_a false app)
apply_one_settles_example =
    apply_one_settles host (λ n. refl) site_a host-BuildsFor app (site_row site_a true) refl

files-write_file_atomic_example :
    (write_file_atomic failing_disk (live site_a) new_conf world).1.files (live site_a) ≡ (
      if is_ok (write_file_atomic failing_disk (live site_a) new_conf world).0
        && path_eq (live site_a) (live site_a)
      then some new_conf
      else world.files (live site_a))
files-write_file_atomic_example =
    files-write_file_atomic failing_disk (live site_a) new_conf world (live site_a) refl

apply_one_other_live_example :
    (apply_one host site_a false app).1.world.files (live site_b) ≡ app.world.files (live site_b)
unfolding text_eq
apply_one_other_live_example = apply_one_other_live host host-BuildsFor site_a site_b false app refl

rollback_from_backup-live_example :
    (rollback_from_backup broken_nginx (site_a ∷ []) world).files (live site_b)
    ≡ (if elem site_b (site_a ∷ []) then restored world site_b else world.files (live site_b))
rollback_from_backup-live_example =
    rollback_from_backup-live broken_nginx (λ n. refl) (site_a ∷ []) world site_b

apply_dry_example : (apply host (request [] true 0) app).1 ≡ app
apply_dry_example = apply_dry host (request [] true 0) refl app

apply_limit_example : processed (apply host (request [] false 1) app).0.0.domains ≤ 1
unfolding normalize_domain is_empty
apply_limit_example = apply_limit host (request [] false 1) app refl (omega arith)

publish-live_example : (publish failing_disk site_a world).1.files (live site_a) ≡ (
    if is_ok (publish failing_disk site_a world).0
    then world.files (staged site_a)
    else world.files (live site_a))
publish-live_example = publish-live failing_disk site_a world

remove_live_site-live_example :
    (remove_live_site failing_disk site_a world).1.files (live site_a) ≡ (
      if is_ok (remove_live_site failing_disk site_a world).0
      then none
      else world.files (live site_a))
remove_live_site-live_example = remove_live_site-live failing_disk site_a world

write_file_atomic_succeeds_example :
    is_ok (write_file_atomic broken_nginx (live site_a) new_conf world).0 ≡ true
write_file_atomic_succeeds_example =
    write_file_atomic_succeeds broken_nginx (λ n. refl) (live site_a) new_conf world

validate_iff_example : (validate parse_cidr settings ≡ []) ↔ Valid parse_cidr settings
validate_iff_example = validate_iff parse_cidr settings

abbrev defaulted : Config
defaulted = apply_defaults true settings

abs_or_join-abs_example : is_abs (abs_or_join (b'/' ∷ letter) letter) ≡ true
unfolding is_abs is_empty
abs_or_join-abs_example = abs_or_join-abs (b'/' ∷ letter) letter refl refl

get-create_example :
    (get 5 (encode_hex (171 ∷ [])) (create 1 (some (171 ∷ [])) 3 eve user_role sessions).1).0 ≡ (
      if ltb (1 + sessions.ttl) 5
      then none
      else (create 1 (some (171 ∷ [])) 3 eve user_role sessions).0)
get-create_example = get-create 1 5 (171 ∷ []) 3 eve user_role sessions

get-expired_example :
    (get 5000 (encode_hex (171 ∷ [])) (
      run
        (create 1 (some (171 ∷ [])) 3 eve user_role sessions).1
        (looked_up 4000 (encode_hex (171 ∷ [])) ∷ []))).0
    ≡ none
unfolding lookup create put session_at insert delete encode_hex hex_digit text_eq
get-expired_example =
    get-expired 4000 5000 (encode_hex (171 ∷ []))
      (create 1 (some (171 ∷ [])) 3 eve user_role sessions).1
      (looked_up 4000 (encode_hex (171 ∷ [])) ∷ []) refl (tt, tt) (omega arith)

lockout_example :
    logins hashes (login (b'h' ∷ []) 2 ∷ []) (handle_login hashes (login [] 1) (server 4)).1
    ≡ (handle_login hashes (login [] 1) (server 4)).1
unfolding get_panel_user_by_username trim_space trim_left trim_right is_space is_empty text_eq
    is_locked authenticates text
lockout_example =
    lockout hashes (login [] 1) (server 4) (panel_user 3 reseller_role 4) (login (b'h' ∷ []) 2 ∷ [])
      refl (refl, (refl, (refl, (refl, (omega arith, (refl, refl))))))
      ((refl, (refl, omega arith)), tt)

abbrev shadow_line : Text
unfolding text
shadow_line = text "eve:$6$h:1"

verify_shadow_password-Opens_example :
    (hash : Text) × (Opens (trim_space eve ++ text ":") hash (shadow_line ∷ [])
      × (compare_hash hashes [] hash ≡ none))
unfolding verify_shadow_password verify_found read_shadow_hash scan second_field Auth.is_locked
    compare_hash run_crypter same_hash has_prefix text text_eq trim_space trim_left trim_right
    is_space is_empty split split_step
verify_shadow_password-Opens_example =
    verify_shadow_password-Opens hashes eve [] (shadow_line ∷ []) false refl

site_visible-can_manage_example :
    site_visible_to_session directory reseller site_a
    ≡ can_manage_panel_user reseller (panel_user 3 user_role 0)
unfolding site_owner panel_user_of get_panel_user_by_username text text_eq trim_space
site_visible-can_manage_example =
    site_visible-can_manage directory reseller site_a (panel_user 3 user_role 0) (inr refl) refl
      refl

abbrev owner : User
owner = record {
  id = (site_row site_a true).user_id;
  username = eve;
  home_dir = [];
  created_at = 0;
}

abbrev site_of : Text → Option Site
site_of d = some (site_row d true)

validate_parent_domain-IsParent_example :
    IsParent site_of owner
      (normalize_domain (b'w' ∷ (b'.' ∷ site_a)))
      (normalize_domain site_a)
      (site_row site_a true)
      (b'w' ∷ [])
unfolding validate_parent_domain check_parent check_parent_site label_part is_root normalize_domain
    trim_suffix has_suffix contains has_prefix text text_eq trim_space trim_left trim_right is_space
    is_empty to_lower lower
validate_parent_domain-IsParent_example =
    validate_parent_domain-IsParent site_of owner (b'w' ∷ (b'.' ∷ site_a)) site_a
      (site_row site_a true) (b'w' ∷ []) refl
