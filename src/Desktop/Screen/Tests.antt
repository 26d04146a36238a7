-- ===== src/Desktop/Screen/Tests.antt =====
-- Screens of concrete states of the desktop client.
use veritas_vpn.Base.{[]}
use veritas_vpn.Base.Net.{Answer, answered, parsed}
use veritas_vpn.Desktop.Auth.{Reply}
use veritas_vpn.Desktop.View as View
use veritas_vpn.Desktop.World.{World, click_connect, go_on, happen}
use veritas_vpn.Desktop.Samples.{working, new_client, reply_of, tokens}

abbrev granted : Answer Reply
granted = answered (record { status = 200; body = parsed (reply_of tokens) })

abbrev first : World
first = record { desktop = View.start new_client; tasks = [] }

-- An attempt to connect that has its token.
abbrev asked : World
asked = happen (go_on 0 working granted) (happen click_connect first)
