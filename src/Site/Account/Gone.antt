-- ===== src/Site/Account/Gone.antt =====
-- The account page after a sign-out, with handlers that still wait: website/account/js/account-app.js.
use veritas_vpn.Base.{◌≡◌, none}
use veritas_vpn.Site.Session.{current_user}
use veritas_vpn.Site.Session.Refresh.{no_storage}
use veritas_vpn.Site.Account.{Account}

-- Nobody is signed in, and the page and the message on show are those of `b`.
pub record IsLeft (b a : Account) : Type 0 where
  pub storage : a.site.storage ≡ no_storage
  pub user : a.site.current_user ≡ none
  pub content : a.content ≡ b.content
  pub flash : a.shown_flash ≡ b.shown_flash
