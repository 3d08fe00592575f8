-- ===== src/Base/Errno.antt =====
-- The negative error numbers of Linux that the drivers return; `ret = -E…` is `e_…`.
use fame_z.Base.Int.{ℤ, negsuc}

abbrev pub e_io : ℤ
e_io = negsuc 4

abbrev pub e_2big : ℤ
e_2big = negsuc 6

abbrev pub e_again : ℤ
e_again = negsuc 10

abbrev pub e_nomem : ℤ
e_nomem = negsuc 11

abbrev pub e_fault : ℤ
e_fault = negsuc 13

abbrev pub e_busy : ℤ
e_busy = negsuc 15

abbrev pub e_nodev : ℤ
e_nodev = negsuc 18

abbrev pub e_inval : ℤ
e_inval = negsuc 21

abbrev pub e_nospc : ℤ
e_nospc = negsuc 27

abbrev pub e_dom : ℤ
e_dom = negsuc 32

abbrev pub e_badslt : ℤ
e_badslt = negsuc 56

abbrev pub e_nodata : ℤ
e_nodata = negsuc 60

abbrev pub e_badmsg : ℤ
e_badmsg = negsuc 73

abbrev pub e_netunreach : ℤ
e_netunreach = negsuc 100

abbrev pub e_timedout : ℤ
e_timedout = negsuc 109

abbrev pub e_already : ℤ
e_already = negsuc 113

abbrev pub e_restartsys : ℤ
e_restartsys = negsuc 511
