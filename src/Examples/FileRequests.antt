-- ===== src/Examples/FileRequests.antt =====
-- Requests to the device file of a board.
use upciedev.Prelude.{
  ℕ, ◌+◌, ◌*◌, ◌%◌, ◌^◌, false, Option, some, pos, ◌≡◌, refl, ◌==◌, if◌then◌else◌,
}
use upciedev.Kernel.{Kernel}
use upciedev.Examples.DeviceAccess.{board}
use upciedev.DeviceFile.{Request, decode_request, pciedev_llseek}
use upciedev.DeviceFile.Ioctl.{DeviceIocRw, copy_request}
use upciedev.DeviceFile.Vector.{number_of_requests}
use upciedev.Access.{}
use upciedev.DeviceFile.Position.{}

-- One register behind all addresses; what the user's memory holds is `o`.
abbrev pub answering : Option ℕ → Kernel
answering o = record {
  World = ℕ;
  ioread = λ bits a w. (w % 2 ^ bits, w);
  iowrite = λ bits a v w. v;
  copy_to_user = λ a n v w. (false, w);
  copy_from_user = λ a n w. o;
}

-- A record that asks for 32 bits at offset 4 of BAR 0, with 9 as its data.
abbrev record_of_user : ℕ
record_of_user = 2 * 2 ^ 64 + 9 * 2 ^ 32 + 4

abbrev decoded : Request
decoded = record { reg_size = 2; bar = 0; offset = 4; user_buf = 0x804; count = 1 }

decode_record : decode_request (answering (some record_of_user)) board 7 0 0x800 24 5 ≡ some decoded
unfolding decode_request
decode_record = refl

llseek_goes_to_records : pciedev_llseek board ≡ (7, pos 7)
unfolding pciedev_llseek
llseek_goes_to_records = refl

-- A request for one register of 32 bits at offset 4 of BAR 0, with data at 9 and the mask at 16.
abbrev pub ioc_request : ℕ → ℕ
ioc_request mode = 2 + mode * 2 ^ 16 + 4 * 2 ^ 64 + 2 ^ 96 + 9 * 2 ^ 128 + 16 * 2 ^ 192

abbrev pub copied : ℕ → DeviceIocRw
copied mode = record {
  register_size = 2;
  rw_access_mode = mode;
  barx_rw = 0;
  offset_rw = 4;
  count_rw = 1;
  data_ptr = 9;
  mask_ptr = 16;
}

copy_ioc_request : copy_request (answering (some (ioc_request 6))) board 0x800 5 ≡ some (copied 6)
unfolding copy_request
copy_ioc_request = refl

copy_ioc_read : copy_request (answering (some (ioc_request 0))) board 0x800 5 ≡ some (copied 0)
unfolding copy_request
copy_ioc_read = refl

-- A user who has a vector of one request at 0x900, and the request at 0x800.
abbrev with_vector : Kernel
with_vector = record {
  World = ℕ;
  ioread = λ bits a w. (w % 2 ^ bits, w);
  iowrite = λ bits a v w. v;
  copy_to_user = λ a n v w. (false, w);
  copy_from_user = λ a n w. if a == 0x900 then some (0x800 * 2 ^ 64 + 1) else some (ioc_request 6);
}

copy_vector_request : copy_request with_vector board 0x800 5 ≡ some (copied 6)
unfolding copy_request
copy_vector_request = refl

one_request : number_of_requests (0x800 * 2 ^ 64 + 1) ≡ 1
unfolding number_of_requests
one_request = refl
