-- ===== src/Connector/Tests.antt =====
-- An attempt that is refused.
use mudo_reprint.Base.{◌≡◌, refl, ◌⊎◌, true, false, none, [], ok, err, dangling}
use mudo_reprint.Socket.{none_open}
use mudo_reprint.Epoller.Examples.{one_added}
use mudo_reprint.Connector.{World, new_connector, connect}
use mudo_reprint.Connector.Attempts.{IsConnecting, IsRetried, IsFailed, IsGivenUp, connect_fails}

abbrev world : World
world = record { connector = new_connector 0 []; sockets = none_open; reactor = one_added }

connect_fails_example :
    (IsConnecting 111 × (connect 5 8 9 111 world ≡ err dangling))
    ⊎ ((w' : World) × IsFailed 111
        × (connect 5 8 9 111 world ≡ ok w')
        × (w'.connector.channel ≡ none)
        × (w'.sockets.objects ≡ none_open.objects)
        × ((IsRetried 111 × (w'.sockets.is_open 9 ≡ true))
            ⊎ (IsGivenUp 111 × (w'.sockets.is_open 9 ≡ false))))
connect_fails_example = connect_fails 5 8 9 111 0 [] world refl refl
