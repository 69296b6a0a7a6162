-- ===== src/Tests/Handlers.antt =====
-- The virtqueue, the arguments and the handlers at concrete inputs.
use qnx_unit_tests.Base.{
  ℕ, ◌+◌, ◌-◌, ◌*◌, List, [], ◌∷◌, some, true, false, ◌≡◌, refl, arith, length, get_elem?, ok,
  if◌then◌else◌,
}
use qnx_unit_tests.Virtqueue.{Virtqueue, VringDesc, new_queue, add_buf, get_buf}
use qnx_unit_tests.Virtqueue.Initialize.{Platform, initialize_modern}
use qnx_unit_tests.Virtqueue.Chain.{HasFree}
use qnx_unit_tests.Virtqueue.Buffers.{request_desc, response_desc, add_buf-HasFree, get_buf-HasFree}
use qnx_unit_tests.Virtqueue.Start.{Counts, Ends, initialize_modern-Ends}
use qnx_unit_tests.Args.{FsConfig, parse_args}
use qnx_unit_tests.Session.Path.{bytes_eq}
use qnx_unit_tests.Args.Options.{print_options, parse_args_lem}
use qnx_unit_tests.Session.Answers.{Answers}
use qnx_unit_tests.Resmgr.{
  Qnx, Virtio9pOcb, open_action, stat_action, mknod_action, unlink_action, rename_action,
  clunk_then, translate_qnx_to_linux_flags, has,
}
use qnx_unit_tests.Resmgr.Answers.{handlers-Answers}
use qnx_unit_tests.Resmgr.Flags.{translate_qnx_to_linux_flags-sum}
use qnx_unit_tests.Tests.Server.{flaky, flaky-IsBounded, posix}

-- A platform that counts its mappings.
abbrev counting : Platform ℕ
counting = record {
  mmap = λ size m. (some (4096 * (m + 1)), m + 1);
  mem_offset64 = λ virt size m. (0, virt, m);
  munmap = λ virt size m. m - 1;
}

abbrev mappings : ℕ → ℕ
mappings m = m

counting-Counts : Counts mappings counting
counting-Counts = record {
  mmap_counts = λ size m. omega arith;
  offset_counts = λ virt size m. refl;
  munmap_counts = λ virt size m. refl;
}

initialize_modern-Ends_example :
    Ends mappings posix 4 2 (initialize_modern counting posix (new_queue 4) 2)
initialize_modern-Ends_example =
    initialize_modern-Ends mappings counting counting-Counts posix (new_queue 4) 2 (omega arith)

-- A queue of four free descriptors whose available ring's index is about to wrap.
abbrev cleared : ℕ → VringDesc
cleared next = record { addr = 0; len = 0; flags = 0; next = next }

abbrev pub four : Virtqueue
four = record (new_queue 4) {
  desc = cleared 1 ∷ cleared 2 ∷ cleared 3 ∷ cleared 4 ∷ [];
  avail = 0 ∷ 65535 ∷ 0 ∷ 0 ∷ 0 ∷ 0 ∷ [];
}

pub four-HasFree : HasFree four (0 ∷ 1 ∷ 2 ∷ 3 ∷ [])
four-HasFree = record {
  chain = (
    refl,
    cleared 1,
    refl,
    (refl, cleared 2, refl, (refl, cleared 3, refl, (refl, cleared 4, refl, tt))),
  );
  distinct = omega arith;
  counted = refl;
  small = omega arith;
}

add_buf-HasFree_example :
    (q' : Virtqueue) × (add_buf posix 4096 23 8192 64 four ≡ ok (0, q'))
    × HasFree q' (2 ∷ 3 ∷ [])
    × (get_elem? q'.desc 0 ≡ some (request_desc 4096 23 1))
    × (get_elem? q'.desc 1 ≡ some (response_desc 8192 64 q'.free_head))
    × (get_elem? q'.avail 5 ≡ some 0)
    × (get_elem? q'.avail 1 ≡ some 0)
add_buf-HasFree_example =
    add_buf-HasFree posix four 0 1 65535 4096 23 8192 64 (2 ∷ 3 ∷ []) four-HasFree (omega arith)
      refl (omega arith)

-- The queue after that AddBuf, when the device has answered with 17 bytes.
abbrev answered : Virtqueue
answered = record (new_queue 4) {
  desc = request_desc 4096 23 1 ∷ response_desc 8192 64 2 ∷ cleared 3 ∷ cleared 4 ∷ [];
  free_head = 2;
  num_free = 2;
  used_idx = 1;
  used = record { id = 0; len = 17 } ∷ [];
}

answered-HasFree : HasFree answered (2 ∷ 3 ∷ [])
answered-HasFree = record {
  chain = (refl, cleared 3, refl, (refl, cleared 4, refl, tt));
  distinct = omega arith;
  counted = refl;
  small = omega arith;
}

get_buf-HasFree_example :
    (q' : Virtqueue) × (get_buf 2 0 answered ≡ ok ((0, 17), q')) × HasFree q' (1 ∷ 0 ∷ 2 ∷ 3 ∷ [])
get_buf-HasFree_example =
    get_buf-HasFree 0 0 answered 0 1 17 (request_desc 4096 23 1) (response_desc 8192 64 2)
      (2 ∷ 3 ∷ []) answered-HasFree (omega arith) (omega arith) (omega arith) refl (omega arith)
      refl refl refl refl refl

-- "9"
abbrev nine : List ℕ
nine = b'9' ∷ []

abbrev unset : FsConfig
unset = record { mount_point = []; transport_type = []; mmio_base = 0; irq = 0; daemonize = false }

-- -o smem=9,irq=9,rw=9 / with a configuration that is unset
abbrev keys : List (List ℕ × List ℕ)
keys =
    (b's' ∷ b'm' ∷ b'e' ∷ b'm' ∷ [], nine)
    ∷ (b'i' ∷ b'r' ∷ b'q' ∷ [], nine)
    ∷ (b'r' ∷ b'w' ∷ [], nine)
    ∷ []

parse_args_lem_example :
    parse_args
      (λ v. 1000 + length v)
      length
      ((b'-' ∷ b'o' ∷ []) ∷ print_options keys ∷ (b'/' ∷ []) ∷ [])
      unset
    ≡ (
      0,
      record {
        mount_point = b'/' ∷ [];
        transport_type = b'm' ∷ b'm' ∷ b'i' ∷ b'o' ∷ [];
        mmio_base = 1001;
        irq = 1;
        daemonize = false;
      },
    )
unfolding bytes_eq
parse_args_lem_example =
    parse_args_lem (λ v. 1000 + length v) length keys (b'/' ∷ []) unset (omega arith) refl

abbrev neutrino : Qnx
neutrino = record {
  o_creat = 0x100;
  o_excl = 0x400;
  o_trunc = 0x200;
  s_isdir = λ mode. has mode 0x4000;
  open_default = λ mode flags. (0, true);
}

translate_qnx_to_linux_flags-sum_example :
    translate_qnx_to_linux_flags neutrino 0x20b
    ≡ (if has 0x20b 0x2 then (if has 0x20b 0x1 then 2 else 1) else 0)
      + ((if has 0x20b 0x200 then 0x200 else 0) + (if has 0x20b 0x8 then 0x400 else 0))
translate_qnx_to_linux_flags-sum_example = translate_qnx_to_linux_flags-sum neutrino 0x20b

abbrev ocb : Virtio9pOcb
ocb = record {
  fid = 1;
  offset = 0;
  iounit = 0;
  is_directory = false;
  open_flags = 0;
  file_mode = 0x81a4;
  file_nbytes = 0;
}

handlers-Answers_example :
    Answers flaky posix flaky-IsBounded (open_action flaky posix neutrino nine 0x103)
    × Answers flaky posix flaky-IsBounded (stat_action flaky posix ocb)
    × Answers flaky posix flaky-IsBounded (mknod_action flaky posix neutrino nine 0x41ff)
    × Answers flaky posix flaky-IsBounded (unlink_action flaky posix nine)
    × Answers flaky posix flaky-IsBounded (rename_action flaky posix nine (b'a' ∷ []))
    × Answers flaky posix flaky-IsBounded {A = ℕ} (clunk_then flaky posix 1 0)
handlers-Answers_example =
    handlers-Answers flaky posix flaky-IsBounded neutrino nine (b'a' ∷ []) 0x103 0x41ff 0 ocb
