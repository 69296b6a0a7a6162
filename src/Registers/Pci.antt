-- ===== src/Registers/Pci.antt =====
-- transport/virtio_defs.h: the identifiers of the device on the PCI bus, the types of its capabilities,
-- and the offsets in its common configuration.
use qnx_unit_tests.Base.{ℕ}

abbrev pub virtio_pci_vendor_id : ℕ
virtio_pci_vendor_id = 0x1af4

abbrev pub virtio_9p_pci_device_id : ℕ
virtio_9p_pci_device_id = 0x1009

abbrev pub common_cfg_type : ℕ
common_cfg_type = 1

abbrev pub notify_cfg_type : ℕ
notify_cfg_type = 2

abbrev pub isr_cfg_type : ℕ
isr_cfg_type = 3

abbrev pub device_cfg_type : ℕ
device_cfg_type = 4

abbrev pub device_feature_select_off : ℕ
device_feature_select_off = 0x00

abbrev pub device_feature_off : ℕ
device_feature_off = 0x04

abbrev pub driver_feature_select_off : ℕ
driver_feature_select_off = 0x08

abbrev pub driver_feature_off : ℕ
driver_feature_off = 0x0c

abbrev pub msix_config_off : ℕ
msix_config_off = 0x10

abbrev pub device_status_off : ℕ
device_status_off = 0x14

abbrev pub queue_select_off : ℕ
queue_select_off = 0x16

abbrev pub queue_size_off : ℕ
queue_size_off = 0x18

abbrev pub queue_msix_vector_off : ℕ
queue_msix_vector_off = 0x1a

abbrev pub queue_enable_off : ℕ
queue_enable_off = 0x1c

abbrev pub queue_notify_off_off : ℕ
queue_notify_off_off = 0x1e

abbrev pub queue_desc_off : ℕ
queue_desc_off = 0x20

abbrev pub queue_avail_off : ℕ
queue_avail_off = 0x28

abbrev pub queue_used_off : ℕ
queue_used_off = 0x30
