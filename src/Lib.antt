-- ===== src/Lib.antt =====
-- FAME-Z: Linux drivers that let virtual machines exchange Gen-Z messages through the mailbox of an
-- IVSHMEM device. This library is a shallow embedding of the drivers' own logic.
--
-- A message travels so: the character device (kernel/famez/fz_bridge.c, Bridge) takes "ADDRESS:BODY"
-- from a writer and calls `famez_create_outgoing` (kernel/famez/famez_IVSHMSG.c, Famez/Outgoing),
-- which waits for the own mail slot, fills it and rings the peer's doorbell. At the peer the
-- interrupt handler (kernel/famez/famez_MSI-X.c, Famez/Interrupt) finds the sender's slot
-- (kernel/famez/famez_adapter.c, Famez/Slots), offers it to the link layer
-- (kernel/famez/famez_link.c, Famez/Link), and otherwise hands it to a reader (Famez/Incoming), who
-- frees it for the sender's next message. Exchange follows one message from host to host, and
-- Famez/Link/Conversation what the fabric manager and the link layer say to each other.
--
-- Exchange/Mailbox says what the mailbox promises with no slot, interrupt or adapter in it: each
-- sender has one message under way, to one peer, which takes it once: its reader gets it, or loses it
-- to an error, or its link layer answers it with a message of its own; a message that another one
-- supplants before it is read is stranded. Exchange/Network puts hosts
-- around one mailbox, where the handlers of different hosts run in any order, one at a time, and a
-- value written to the doorbell register raises the vector that famez.h documents at the peer that it
-- documents. A send is a step where the own slot is free; an interrupt for a message that the link
-- layer leaves alone, which strands the last one if its reader has not taken it, or for a request that
-- the link layer answers while the own slot is free; a read where a slot was handed over, which gives
-- the message, or an error and loses it.
-- Exchange/Refinement relates the two, and Exchange/Drain empties the mailbox.
--
-- Famez/Types holds the structures of kernel/famez/famez.h. A host is one adapter with the memory
-- that it maps: the mail slots are a function of their address, the doorbell a list of the values
-- written to it. A handler is a function from host to result and host, or to a fault: what the C code
-- does not survive (a NULL pointer, a lock taken twice, a BUG_ON) is a value of its own, and a theorem
-- that a call returns excludes it. Names are those of the C code in lower case.
--
-- A driver's life: the Gen-Z subsystem (kernel/genz, Genz) brings up its bus and classes and adds
-- bridge devices. The PCI driver (kernel/famez/famez_pci.c, Famez/Probe) probes a device: it creates
-- the adapter (kernel/famez/famez_adapter.c, Famez/Adapter), sets up the interrupts
-- (kernel/famez/famez_MSI-X.c, Famez/Vectors), puts the adapter on a list and greets the server.
-- `famez_register` (kernel/famez/famez_register.c, Famez/Bind) binds the bridge to all on the list.
-- In these parts the state is what the driver holds of the kernel: mappings, blocks of memory,
-- handlers of each vector, classes, character devices.
--
-- Monolithic is the older driver of kernel/famez/monolithic, one module for everything: its sends and
-- its interrupt handler (famez_MSI-X.c: Messages), what comes of them (Arrival), the setup of its
-- interrupts (Vectors), its character device (famez_bridge.c: Device, and Misc for its
-- registration), its configuration, and the probe and removal of a device (famez_config.c: Config and
-- Probe). Sessions compares the open and close of its device with those of the modular driver. Its
-- names that the modular driver has too begin with `monolithic`.
--
-- Rocpyle is kernel/rocpyle/bloop.c, a program that writes one message to a device until a signal.
--
-- Base holds the shared helpers: numbers, lists, the error numbers, the commands. Base/Text is the
-- part of the C library that the drivers use on text (strchr, sprintf and sscanf of %d, memcpy); its
-- lemmas show that a text that was printed is scanned back.
--
-- Integers are those of the C code with their wrap-around written out; jiffies are 64-bit. The wait of
-- a send runs on fuel, 5 * HZ + 6 rounds: one for each tick up to the deadline, and six more for the
-- first delays, which may be shorter than a tick. The theorem on the send shows it to be enough where
-- a tick is 10 milliseconds at most (HZ is 100 or more) and the clock moves in each delay of a tick or
-- more, by a number of ticks that is bounded, and stays below 2 ^ 63. In an interrupt this asks that
-- another CPU count the ticks. Where a theorem speaks of a clock that moves in the modular driver, it
-- is this one. In the older driver the clock moves in each of its sleeps, of 50 milliseconds or more.
--
-- The older driver's send waits HZ / 2 + 1 rounds at most, for the same reason; in its interrupt
-- handler, where it must not sleep, coming to the sleep is a fault. The loop in which its
-- reader waits runs on a number of rounds that the theorems give.
--
-- What other CPUs and peers do while a thread sleeps is an argument: the kernel's delay returns the
-- slots and the clock as they are afterwards. Allocation, PCI, IRQ and device registration are the
-- kernel's, and their answers are arguments.
--
-- Not modelled: the Python server and client, the copies of QEMU's ivshmem programs under docs, log
-- messages, the init and exit functions of the PCI drivers, which pass a registration on to the
-- kernel, and the rates that rocpyle's program prints.
pub mod Base
pub mod Famez
pub mod Genz
pub mod Bridge
pub mod Monolithic
pub mod Exchange
pub mod Rocpyle
pub mod Examples
