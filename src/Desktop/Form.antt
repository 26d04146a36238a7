-- ===== src/Desktop/Form.antt =====
-- clients/desktop/src/App.tsx, lines 140-170, with auth.ts, lines 115-160: `handleAuth` as it runs, up to
-- its `await` and from the answer on. The tabs and inputs can be used in between.
use veritas_vpn.Base.{
  ◌≡◌, Bool, true, false, Option, none, some, List, [], ◌∷◌, Text, text, is_truthy, trim,
  to_lower_case, or_else, arith, refl, ◌∙◌, ap, if◌then◌else◌, Result, ok, throw,
}
use veritas_vpn.Base.Net.{receive}
use veritas_vpn.Api.{User, Data, anonymous_user}
use veritas_vpn.Desktop.Auth.{
  Client, auth_api_call, auth_request, read_answer, keep_user, sign_in, sign_up,
  sign_in_with_account_id, register_anonymous,
}
use veritas_vpn.Desktop.Attempt.{AuthMode, signin, signup, AuthMethod, email, account_id, Desktop}
use veritas_vpn.Desktop.Handlers.{
  switch_mode, authenticate, authenticated, handle_auth, answered_auth,
}
use veritas_vpn.Desktop.View.{shows_form}
use veritas_vpn.Desktop.Async.{send_from}

-- A submission that waits, with the variables that `handleAuth` and the function it calls keep.
pub data Submission : Type 0 where
  entering : (normalized_email : Text) → Submission
  creating : (normalized_email : Text) → Submission
  identifying registering : Submission

-- The user that the function builds of the answer.
abbrev user_of : Submission → Data → User
user_of (entering address) d = record {
  email = some (or_else d.email address);
  account_id = d.account_id;
  is_anonymous = false;
}
user_of (creating address) d = record {
  email = some address;
  account_id = d.account_id;
  is_anonymous = false;
}
user_of identifying d = anonymous_user d
user_of registering d = anonymous_user d

abbrev method_of : Submission → AuthMethod
method_of (entering address) = email
method_of (creating address) = email
method_of identifying = account_id
method_of registering = account_id

abbrev mode_of : Submission → AuthMode
mode_of (entering address) = signin
mode_of (creating address) = signup
mode_of identifying = signin
mode_of registering = signup

abbrev Step : Type 0
Step = Desktop × Option Submission

abbrev posting : Text → List (Text × Text) → Submission → Desktop → Step
posting path fields s d = (send_from (auth_request path fields) d, some s)

-- The end of `handleAuth`, with the method and the mode of the submission.
abbrev finish : AuthMethod → AuthMode → Result User → Desktop → Desktop
finish method mode (ok user) d = record (authenticated method mode user d) { loading = false }
finish method mode (throw message) d = record d { error = message; loading = false }

begin_with : AuthMethod → AuthMode → Desktop → Step
unfolding send_from
begin_with email signin d =
    let address = to_lower_case (trim d.email) in
    posting (text "/api/v1/auth/signin")
      ((text "email", address) ∷ (text "password", d.password) ∷ []) (entering address) d
begin_with email signup d =
    let address = to_lower_case (trim d.email) in
    posting (text "/api/v1/auth/register")
      ((text "email", address) ∷ (text "password", d.password) ∷ []) (creating address) d
begin_with account_id signup d = posting (text "/api/v1/auth/register-anonymous") [] registering d
begin_with account_id signin d =
    let id = trim d.account_id in
    if is_truthy id
    then posting (text "/api/v1/auth/signin-account") ((text "account_id", id) ∷ []) identifying d
    else (finish account_id signin (throw (text "Enter your account ID.")) d, none)

unfoldable pub begin_auth : Desktop → Step
unfolding begin_with
begin_auth d = begin_with d.method d.mode (record d { error = []; loading = true })

unfoldable pub end_auth : Submission → Result Data → Desktop → Desktop
unfolding keep_user authenticated
end_auth s answer d =
    let (result, client) = keep_user (user_of s) (answer, d.client) in
    finish (method_of s) (mode_of s) result (record d { client = client })

-- The submission is run on with nothing in between.
abbrev pub run_on : Step → Desktop
run_on (d, none) = d
run_on (d, some s) =
    let (answer, net) = receive d.client.net in
    end_auth s (read_answer answer) (record d { client = record client { net = net } })
  where
    open d use {client}

abbrev end_with : AuthMethod → AuthMode → Result User × Client → Desktop → Desktop
end_with method mode (result, client) d = finish method mode result (record d { client = client })

kept :
    (s : Submission) (answer : Result Data) (d : Desktop) (c : Client)
    → end_auth s answer (record d { client = c })
      ≡ end_with (method_of s) (mode_of s) (keep_user (user_of s) (answer, c)) d
unfolding end_auth keep_user
kept s (ok reply) d c = refl
kept s (throw message) d c = refl

if_steps :
    (b : Bool) (x y : Step) (r q : Result User × Client) (d : Desktop)
    → run_on x ≡ end_with account_id signin r d
    → run_on y ≡ end_with account_id signin q d
    → run_on (if b then x else y) ≡ end_with account_id signin (if b then r else q) d
if_steps true x y r q d e f = e
if_steps false x y r q d e f = f

run_on-with :
    (method : AuthMethod) (mode : AuthMode) (d : Desktop)
    → run_on (begin_with method mode d) ≡ end_with method mode (authenticate method mode d) d
unfolding begin_with authenticate sign_in sign_up sign_in_with_account_id register_anonymous receive
run_on-with email signin d =
    let address = to_lower_case (trim d.email) in
    let (answer, c) =
      auth_api_call (text "/api/v1/auth/signin")
        ((text "email", address) ∷ (text "password", d.password) ∷ []) d.client in
    kept (entering address) answer d c
run_on-with email signup d =
    let address = to_lower_case (trim d.email) in
    let (answer, c) =
      auth_api_call (text "/api/v1/auth/register")
        ((text "email", address) ∷ (text "password", d.password) ∷ []) d.client in
    kept (creating address) answer d c
run_on-with account_id signup d =
    let (answer, c) = auth_api_call (text "/api/v1/auth/register-anonymous") [] d.client in
    kept registering answer d c
run_on-with account_id signin d =
    let (answer, c) =
      auth_api_call (text "/api/v1/auth/signin-account")
        ((text "account_id", trim d.account_id) ∷ []) d.client in
    if_steps (is_truthy (trim d.account_id)) _ _ _ _ d (kept identifying answer d c) refl

authenticate_same :
    (method : AuthMethod) (mode : AuthMode) (d : Desktop)
    → authenticate method mode (record d { error = []; loading = true })
      ≡ authenticate method mode d
unfolding authenticate
authenticate_same email signin d = refl
authenticate_same email signup d = refl
authenticate_same account_id signin d = refl
authenticate_same account_id signup d = refl

answered :
    (method : AuthMethod) (mode : AuthMode) (r : Result User × Client) (d : Desktop)
    → d.method ≡ method
    → d.mode ≡ mode
    → end_with method mode r (record d { error = []; loading = true })
      ≡ record (answered_auth r.0 (record d { error = []; client = r.1 })) { loading = false }
unfolding answered_auth
answered method mode r d m o = ground arith

-- With nothing in between, the two steps of a submission do what the handler in one piece does, in each
-- of the four forms, whatever is entered and whatever the server answers.
pub run_on-auth : (d : Desktop) → run_on (begin_auth d) ≡ handle_auth d
unfolding begin_auth end_auth handle_auth receive
run_on-auth d =
    run_on-with d.method d.mode (record d { error = []; loading = true })
    ∙ answered d.method d.mode (authenticate d.method d.mode started) d refl refl
    ∙ ap
        (λ (r : Result User × Client).
          record (answered_auth r.0 (record d { error = []; client = r.1 })) { loading = false })
        (authenticate_same d.method d.mode d)
  where
    started : Desktop
    started = record d { error = []; loading = true }

-- An anonymous registration that is granted shows the new account ID, which cannot be had again, if the
-- form was left alone; a click on a tab while the registration waits makes the application sign in
-- without showing it.
pub tab_hides_account_id :
    (d : Desktop) (reply : Data) (id : Text) (tab : AuthMode)
    → d.method ≡ account_id
    → d.mode ≡ signup
    → reply.account_id ≡ some id
    → is_truthy id ≡ true
    → let left_alone = end_auth registering (ok reply) d in
      let switched = end_auth registering (ok reply) (switch_mode tab d) in
      (shows_form left_alone ≡ true)
      × (left_alone.new_account_id ≡ id)
      × (shows_form switched ≡ false)
      × (switched.user ≡ left_alone.user)
unfolding end_auth shows_form switch_mode
tab_hides_account_id d reply id tab by_id up there named = ground arith
