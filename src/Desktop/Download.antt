-- ===== src/Desktop/Download.antt =====
-- clients/desktop/src/auth.ts: the file with the account's ID.
use veritas_vpn.Base.{
  ◌≡◌, refl, sym, ap, true, false, Option, none, some, List, [], ◌∷◌, ◌++◌, Text, text, or_null,
  Result, ok, throw, ◌⊎◌, inl, inr,
}
use veritas_vpn.Base.Net.{
  get, Request, Body, parsed, unreadable, Answer, rejected, answered, fetch, next_answer,
}
use veritas_vpn.Base.Uri.{encode_uri_component}
use veritas_vpn.Base.Uri.Laws.{decode, IsValue, IsUnicode, has_surrogate, Carries, encode-Carries}
use mathlib.Core.Path.{subst}
use veritas_vpn.Api.{auth_api}
use veritas_vpn.Desktop.Auth.{Reply, Client, get_stored_token}

-- The client, and the files that it has saved: a name and what is in the file.
pub record Downloads : Type 0 where
  pub client : Client
  pub files : List (Text × Text)

abbrev download_address : Text → Text
download_address value = auth_api ++ (text "/api/v1/auth/download-account?token=" ++ value)

abbrev pub download_request : Text → Request
download_request value = record {
  method = get;
  url = download_address value;
  authorization = none;
  content_json = false;
  body = [];
}

-- A body as the text that it is read from, `res.text()`: `raw` is the text of an object.
abbrev pub text_of_body : (Reply → Text) → Body Reply → Text
text_of_body raw (parsed r) = raw r
text_of_body raw (unreadable content) = content

save_answer : (Reply → Text) → Answer Reply → Downloads → Result (Unit {0}) × Downloads
save_answer raw (rejected message) d = (throw message, d)
save_answer raw (answered res) d = (
  ok tt,
  record d { files = d.files ++ ((text "veritasvpn-account.txt", text_of_body raw res.body) ∷ []) },
)

ask_file : (Reply → Text) → Result Text → Downloads → Result (Unit {0}) × Downloads
unfolding fetch save_answer
ask_file raw (throw message) d = (throw message, d)
ask_file raw (ok value) d =
    let (answer, net) = fetch (download_request value) d.client.net in
    save_answer raw answer (record d { client = record client { net = net } })
  where
    open d use {client}

-- What is done with the stored token, where there is one.
download_with : (Reply → Text) → Option Text → Downloads → Result (Unit {0}) × Downloads
unfolding ask_file
download_with raw none d = (ok tt, d)
download_with raw (some token) d = ask_file raw (encode_uri_component token) d

unfoldable pub download_account_file : (Reply → Text) → Downloads → Result (Unit {0}) × Downloads
unfolding download_with get_stored_token
download_account_file raw d = download_with raw (or_null (get_stored_token d.client)) d

-- The file that an answer gives, if any: its body, whatever its status is.
abbrev pub file_of : (Reply → Text) → Answer Reply → List (Text × Text)
file_of raw (rejected message) = []
file_of raw (answered res) = (text "veritasvpn-account.txt", text_of_body raw res.body) ∷ []

-- One request left, whose query is a value that is read back as the token, and the answer was saved.
pub Asked : (Reply → Text) → Text → Downloads → Downloads → Type 0
Asked raw token d e =
    (value : Text) × (decode value ≡ token)
    × IsValue value
    × (e.client.net.sent ≡ d.client.net.sent ++ (download_request value ∷ []))
    × (e.files ≡ d.files ++ file_of raw (next_answer d.client.net.answers))

append_nil : (fs : List (Text × Text)) → fs ++ [] ≡ fs
append_nil [] = refl
append_nil (f ∷ fs) = ap (λ rest. f ∷ rest) (append_nil fs)

save_answer-client :
    (raw : Reply → Text) (a : Answer Reply) (d : Downloads)
    → (save_answer raw a d).1.client ≡ d.client
unfolding save_answer
save_answer-client raw (rejected message) d = refl
save_answer-client raw (answered res) d = refl

save_answer-files :
    (raw : Reply → Text) (a : Answer Reply) (d : Downloads)
    → (save_answer raw a d).1.files ≡ d.files ++ file_of raw a
unfolding save_answer
save_answer-files raw (rejected message) d = sym (append_nil d.files)
save_answer-files raw (answered res) d = refl

-- The session that is stored stays, and either the token could not be encoded and nothing is done, or
-- it was asked for the file.
pub IsDownload : (Reply → Text) → Text → Downloads → Downloads → Type 0
IsDownload raw token d e =
    (e.client.storage ≡ d.client.storage)
    × (((has_surrogate token ≡ true) × (e ≡ d)) ⊎ Asked raw token d e)

ask_file-IsDownload :
    (raw : Reply → Text) (token : Text) (r : Result Text) (d : Downloads)
    → Carries token r
    → IsDownload raw token d (ask_file raw r d).1
unfolding ask_file fetch Carries Asked IsDownload
ask_file-IsDownload raw token (throw message) d h = (refl, inl (h, refl))
ask_file-IsDownload raw token (ok value) d h =
    let (answer, net) = fetch (download_request value) d.client.net in
    let asked : Downloads = record d { client = record client { net = net } } in
    (
      ap (λ c. c.storage) (save_answer-client raw answer asked),
      inr (
        value,
        h.0,
        h.1,
        ap (λ c. c.net.sent) (save_answer-client raw answer asked),
        save_answer-files raw answer asked,
      ),
    )
  where
    open d use {client}

-- With a token stored the session stays as it was, and either the token has half of a character and
-- nothing is sent or saved, or one request leaves, whose query is a value of unescaped codes and escapes
-- that is read back as the token, and an answer is saved as the account's file, whatever its status is.
pub download_account_file_carries :
    (raw : Reply → Text) (d : Downloads) (token : Text)
    → or_null (get_stored_token d.client) ≡ some token
    → IsUnicode token
    → IsDownload raw token d (download_account_file raw d).1
unfolding download_account_file download_with
download_account_file_carries raw d token h u =
    subst (λ t. IsDownload raw token d (download_with raw t d).1) (sym h)
      (ask_file-IsDownload raw token (encode_uri_component token) d (encode-Carries token u))
