-- ===== src/DirMonitor/Events.antt =====
-- Whom an event reaches.
use privately_distributed_cl.DirMonitor.{
  WhatToMonitor, creation, deletion, modify, Mask, in_create, in_delete, in_close_write,
}

abbrev pub mask : WhatToMonitor → Mask
mask creation = in_create
mask deletion = in_delete
mask modify = in_close_write
