-- ===== src/Desktop/DownloadTests.antt =====
-- The account's file, at a concrete session.
use veritas_vpn.Base.{◌≡◌, refl, some, [], ◌∷◌, map, Text, text, arith}
use veritas_vpn.Base.Net.{unreadable, answered}
use veritas_vpn.Base.Uri.{encode_uri_component}
use veritas_vpn.Desktop.Auth.{Reply, get_stored_token}
use veritas_vpn.Desktop.Download.{
  Downloads, IsDownload, download_account_file, download_account_file_carries,
}
use veritas_vpn.Desktop.Samples.{stored}

abbrev raw : Reply → Text
raw reply = text "{}"

-- The token has codes that are escaped, and the server refuses it.
abbrev refused : Downloads
refused = record {
  client = record {
    storage = record stored { access_token = some (text "a+b&é") };
    net = record {
      answers = answered (record { status = 401; body = unreadable (text "invalid token") }) ∷ [];
      sent = [];
    };
  };
  files = [];
}

refused_is_saved :
    (download_account_file raw refused).1.files
    ≡ (text "veritasvpn-account.txt", text "invalid token") ∷ []
unfolding download_account_file encode_uri_component text
refused_is_saved = refl

refused_url :
    map (λ r. r.url) (download_account_file raw refused).1.client.net.sent
    ≡ text "https://api.veritasvpn.cloud/api/v1/auth/download-account?token=a%2Bb%26%C3%A9" ∷ []
unfolding download_account_file encode_uri_component text
refused_url = refl

download_account_file_carries_example :
    IsDownload raw (text "a+b&é") refused (download_account_file raw refused).1
unfolding text get_stored_token
download_account_file_carries_example =
    download_account_file_carries raw refused (text "a+b&é") refl (ground arith)
