-- ===== src/Device/Tests.antt =====
-- A bank with ten units of resource 0, of which customer 0 holds two and may need five more; runs of
-- the functions on it, and the theorems at it.
use cse_os.Base.{◌≡◌, none, some, [], arith, if◌then◌else◌, ◌==◌}
use cse_os.Device.{Bank, RtDevice, rt_require_device, safety, minus_one}
use cse_os.Device.Safety.{Justified, safety_lem}
use cse_os.Device.Total.{total, rt_require_device-total}

abbrev leds : RtDevice
leds = record {
  device_num = 10;
  rt_device_read = none;
  rt_device_write = some 100;
  rt_device_write_byte = none;
  rt_device_write_by_num = none;
  rt_device_read_by_num = none;
  rt_require_device = some 200;
  rt_release_device = some 300;
}

abbrev bank : Bank
bank = record {
  device_list = λ d. leds;
  nres = 2;
  all_devices = λ n. 10;
  available = λ n. if n == 0 then 8 else 10;
  maximum = λ c n. if c == 0 then 7 else 0;
  allocation = λ c n. if (c == 0) then (if n == 0 then 2 else 0) else 0;
  need = λ c n. if c == 0 then 5 else 0;
  status = λ c. 0;
  asid_list = λ c. if c == 0 then 33 else minus_one;
  calls = [];
}

safety_lem_example :
    Justified bank.need bank.allocation bank.available bank.status
      (safety 3 bank.status bank.need bank.allocation bank.available)
safety_lem_example = safety_lem bank.need bank.allocation 3 bank.available bank.status (omega arith)

rt_require_device-total_example : total (rt_require_device 3 33 0 3 bank).1 0 ≡ total bank 0
rt_require_device-total_example =
    rt_require_device-total 3 33 0 3 0 bank (omega arith) (omega arith)
