-- ===== src/Registers.antt =====
-- transport/virtio_defs.h: the registers of a virtio device, its status bits and its identifiers.
pub mod Pci
use qnx_unit_tests.Base.{ℕ}

abbrev pub magic_value_reg : ℕ
magic_value_reg = 0x000

abbrev pub version_reg : ℕ
version_reg = 0x004

abbrev pub device_id_reg : ℕ
device_id_reg = 0x008

abbrev pub device_features_reg : ℕ
device_features_reg = 0x010

abbrev pub device_features_sel_reg : ℕ
device_features_sel_reg = 0x014

abbrev pub driver_features_reg : ℕ
driver_features_reg = 0x020

abbrev pub driver_features_sel_reg : ℕ
driver_features_sel_reg = 0x024

abbrev pub guest_page_size_reg : ℕ
guest_page_size_reg = 0x028

abbrev pub queue_sel_reg : ℕ
queue_sel_reg = 0x030

abbrev pub queue_num_max_reg : ℕ
queue_num_max_reg = 0x034

abbrev pub queue_num_reg : ℕ
queue_num_reg = 0x038

abbrev pub queue_align_reg : ℕ
queue_align_reg = 0x03c

abbrev pub queue_pfn_reg : ℕ
queue_pfn_reg = 0x040

abbrev pub queue_ready_reg : ℕ
queue_ready_reg = 0x044

abbrev pub queue_notify_reg : ℕ
queue_notify_reg = 0x050

abbrev pub interrupt_status_reg : ℕ
interrupt_status_reg = 0x060

abbrev pub interrupt_ack_reg : ℕ
interrupt_ack_reg = 0x064

abbrev pub status_reg : ℕ
status_reg = 0x070

abbrev pub queue_desc_low_reg : ℕ
queue_desc_low_reg = 0x080

abbrev pub queue_desc_high_reg : ℕ
queue_desc_high_reg = 0x084

abbrev pub queue_avail_low_reg : ℕ
queue_avail_low_reg = 0x090

abbrev pub queue_avail_high_reg : ℕ
queue_avail_high_reg = 0x094

abbrev pub queue_used_low_reg : ℕ
queue_used_low_reg = 0x0a0

abbrev pub queue_used_high_reg : ℕ
queue_used_high_reg = 0x0a4

abbrev pub config_reg : ℕ
config_reg = 0x100

abbrev pub status_acknowledge : ℕ
status_acknowledge = 1

abbrev pub status_driver : ℕ
status_driver = 2

abbrev pub status_driver_ok : ℕ
status_driver_ok = 4

abbrev pub status_features_ok : ℕ
status_features_ok = 8

abbrev pub status_failed : ℕ
status_failed = 128

abbrev pub virtio_9p_device_id : ℕ
virtio_9p_device_id = 9

abbrev pub default_queue_size : ℕ
default_queue_size = 128
