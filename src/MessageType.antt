-- ===== src/MessageType.antt =====
-- The enumeration MessageType of protocol/nine_p_types.h. A value is its byte, since the code casts
-- any byte of a message to the enumeration.
use qnx_unit_tests.Base.{ℕ}

abbrev pub tlerror : ℕ
tlerror = 6

abbrev pub rlerror : ℕ
rlerror = 7

abbrev pub tversion : ℕ
tversion = 100

abbrev pub rversion : ℕ
rversion = 101

abbrev pub tattach : ℕ
tattach = 104

abbrev pub rattach : ℕ
rattach = 105

abbrev pub twalk : ℕ
twalk = 110

abbrev pub rwalk : ℕ
rwalk = 111

abbrev pub tlopen : ℕ
tlopen = 12

abbrev pub rlopen : ℕ
rlopen = 13

abbrev pub tlcreate : ℕ
tlcreate = 14

abbrev pub rlcreate : ℕ
rlcreate = 15

abbrev pub tread : ℕ
tread = 116

abbrev pub rread : ℕ
rread = 117

abbrev pub twrite : ℕ
twrite = 118

abbrev pub rwrite : ℕ
rwrite = 119

abbrev pub tclunk : ℕ
tclunk = 120

abbrev pub rclunk : ℕ
rclunk = 121

abbrev pub tgetattr : ℕ
tgetattr = 24

abbrev pub rgetattr : ℕ
rgetattr = 25

abbrev pub treaddir : ℕ
treaddir = 40

abbrev pub rreaddir : ℕ
rreaddir = 41

abbrev pub tmkdir : ℕ
tmkdir = 72

abbrev pub rmkdir : ℕ
rmkdir = 73

abbrev pub tunlinkat : ℕ
tunlinkat = 76

abbrev pub runlinkat : ℕ
runlinkat = 77

abbrev pub trenameat : ℕ
trenameat = 74

abbrev pub rrenameat : ℕ
rrenameat = 75
