-- ===== src/Site/Account/Actions.antt =====
-- The events of the account page, website/account/js/account-app.js, lines 309-386. A handler's
-- awaited calls run without another handler between them.
use veritas_vpn.Base.{ℕ, Bool, true, false, Option, none, [], Text, text, text_eq, if◌then◌else◌}
use veritas_vpn.Site.Session.{Site, current_user}
use veritas_vpn.Site.Account.{
  Account, render, on_user, act_checkout, act_cancel, act_reset_password, act_sign_out,
}

pub data Action : Type 0 where
  checkout cancel reset_password signout : Action

-- What happens on the page. An action carries the time, and whether the user confirms it.
pub data Event : Type 0 where
  follow_link : Text → Event
  click_upgrade click_sign_out : Event
  act : ℕ → Bool → Action → Event
  auth_changed : ℕ → Event

-- The page before the first event.
unfoldable pub start : Text → Site → Account
start hash s = record {
  site = s;
  billing_status = none;
  flash = none;
  hash = hash;
  active_nav = [];
  content = none;
  shown_flash = none;
  upgrade_hidden = false;
  email_shown = [];
  shell_hidden = true;
  href = none;
  opened = [];
}

module _ (locale_date : Text → Text) where
  -- The event `hashchange` is fired where the hash changes.
  unfoldable pub change_hash : Text → Account → Account
  unfolding render text_eq
  change_hash hash a =
      if text_eq a.hash hash then a else render locale_date (record a { hash = hash })

  module _ (payload_exp : Text → Option ℕ) where
    unfoldable pub on_action : ℕ → Bool → Action → Account → Account
    unfolding act_checkout act_cancel act_reset_password act_sign_out
    on_action now confirmed checkout a = act_checkout locale_date payload_exp now a
    on_action now confirmed cancel a = act_cancel locale_date payload_exp now confirmed a
    on_action now confirmed reset_password a = act_reset_password locale_date a
    on_action now confirmed signout a = act_sign_out a

    unfoldable pub handle : Event → Account → Account
    unfolding change_hash on_action on_user current_user
    handle (follow_link hash) a = change_hash hash a
    handle click_upgrade a = change_hash (text "#/subscription") a
    handle click_sign_out a = act_sign_out a
    handle (act now confirmed action) a = on_action now confirmed action a
    handle (auth_changed now) a = on_user locale_date payload_exp now (current_user a.site) a

    pub data Run (a : Account) : Account → Type 0 where
      here : Run a a
      next : {b : Account} (e : Event) → Run a b → Run a (handle e b)
