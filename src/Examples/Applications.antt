-- ===== src/Examples/Applications.antt =====
-- The applications' code, and the code below the daemons, on concrete inputs.
use miptp_cpp.Prelude.{
  ℕ, ◌≡◌, ◌↔◌, refl, Bool, true, false, List, [], ◌∷◌, ◌++◌, replicate, ◌==◌, if◌then◌else◌, arith,
}
use miptp_cpp.Outcome.{ok, after}
use miptp_cpp.CrossIpc.{AnonymousSocket, received, write, size_bytes, read_until}
use miptp_cpp.CrossIpc.Stream.{concat}
use miptp_cpp.CrossIpc.Prefix.{streaming, NonEmpty, TookNext, read_until-streaming}
use miptp_cpp.CrossIpc.Strings.{NoNull, ending, read_string, read_string_lem}
use miptp_cpp.FileTransfer.{send_file, receive_file}
use miptp_cpp.FileTransfer.RoundTrip.{taking, receive_file-send_file}
use miptp_cpp.FileCompare.{file_compare, file_compare_lem}
use miptp_cpp.TransportInterface.Handshake.{Answered, asked, listen_sent, listen_handshake}
use miptp_cpp.ClientHandler.{fresh}
use miptp_cpp.ClientHandler.Handlers.{handle_sock}
use miptp_cpp.AddressTypes.{to_string_mac_address-injective}
use miptp_cpp.EthernetFrame.Layout.{Restored, from_buffer-filled}

abbrev idle : AnonymousSocket
idle = record { m_closed = false; m_nonblock = false; recvs = []; sends = []; written = [] }

-- `a.t`, and a file of three bytes.
abbrev name : List ℕ
name = b'a' ∷ b'.' ∷ b't' ∷ []

abbrev contents : List ℕ
contents = 7 ∷ 0 ∷ 7 ∷ []

-- The sender's bytes come as one byte and the rest.
abbrev pieces : List (List ℕ)
pieces = (3 ∷ []) ∷ (replicate 7 0 ++ name ++ (3 ∷ replicate 7 0) ++ contents) ∷ []

pieces-NonEmpty : NonEmpty pieces
pieces-NonEmpty = (λ e. cc, (λ e. cc, tt))

-- The first read call brings one byte, the second the seven others.
read_until-streaming_example : TookNext 8 [] pieces idle (read_until 8 (streaming pieces idle))
read_until-streaming_example = read_until-streaming 8 pieces idle pieces-NonEmpty (omega arith)

sent_bytes : concat pieces ≡ (send_file name contents (taking name contents idle)).1.written
unfolding send_file write size_bytes
sent_bytes = refl

receive_file-send_file_example : (receive_file (streaming pieces idle)).0 ≡ ok (name, contents)
receive_file-send_file_example =
    receive_file-send_file name contents pieces idle idle (omega arith) (omega arith) (omega arith)
      (omega arith) refl pieces-NonEmpty sent_bytes

file_compare_lem_example : (file_compare name contents ≡ true) ↔ (name ≡ contents)
file_compare_lem_example = file_compare_lem name contents

-- Every port but 80 is free.
abbrev but_80 : ℕ → Bool
but_80 port = if port == 80 then false else true

listen_handshake_example :
    Answered false 80 idle
      (after (handle_sock but_80 5 (fresh (asked (listen_sent 80 idle) idle) 100 [])))
listen_handshake_example = listen_handshake 80 100 5 but_80 [] idle idle (omega arith) refl refl

name-NoNull : NoNull name
name-NoNull = (omega arith, (omega arith, (omega arith, tt)))

read_string_lem_example :
    read_string (record idle { recvs = received name ∷ [] }) ≡ ending 3 name idle
read_string_lem_example = read_string_lem name idle name-NoNull (omega arith)

abbrev mac : ℕ → List ℕ
mac n = 0 ∷ 0 ∷ 0 ∷ 0 ∷ 0 ∷ n ∷ []

from_buffer-filled_example : Restored (mac 1) (mac 2) 0x88b5 9 contents
from_buffer-filled_example =
    from_buffer-filled (mac 1) (mac 2) 0x88b5 9 contents refl refl (omega arith)

to_string_mac_address-injective_example : mac 0x1f ≡ mac 0x1f
to_string_mac_address-injective_example =
    to_string_mac_address-injective (mac 0x1f) (mac 0x1f) refl refl refl
