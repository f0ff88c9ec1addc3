-- ===== src/Net/Defs.antt =====
-- Names that the functions of src/connection.c share.
use droidcam_linux_client.Prelude.{zero, Bool, true, false, if◌then◌else◌, List, [], ◌∷◌}
use droidcam_linux_client.Prelude.Int.{ℤ, negsuc, eq_ℤ}

-- A socket is a file descriptor.
abbrev pub invalid_socket : ℤ
invalid_socket = negsuc 0

abbrev pub is_invalid : ℤ → Bool
is_invalid (negsuc zero) = true
is_invalid _ = false

-- The values of `errno` that the code tells apart.
pub data Errno : Type 0 where
  eagain ewouldblock einprogress eintr other : Errno

abbrev pub would_block : Errno → Bool
would_block Errno.eagain = true
would_block Errno.ewouldblock = true
would_block _ = false

-- A descriptor that is closed.
abbrev pub disconnect : ℤ → List ℤ → List ℤ
disconnect socket [] = []
disconnect socket (s ∷ open_sockets) =
    if eq_ℤ socket s then open_sockets else s ∷ disconnect socket open_sockets
